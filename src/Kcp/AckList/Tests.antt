-- ===== src/Kcp/AckList/Tests.antt =====
-- Runs of AckList on a list of three numbers.
use v2root_core.Base.{ℕ, ◌+◌, ◌≡◌, ◌≤◌, refl, true, false, List, [], ◌∷◌, length, map, All}
use v2root_core.Base.Outcome.{done}
use v2root_core.Kcp.Segment.{AckSegment, ack_number_limit}
use v2root_core.Kcp.AckList.{AckList, clear, flush, candidates_cap}
use v2root_core.Kcp.AckList.Clear.{Entry, with_entries, Holds, clear-kept}
use v2root_core.Kcp.AckList.Flush.{postponed, flush-postponed}

abbrev base : AckList
base = record {
  timestamps = [];
  numbers = [];
  next_flush = [];
  flush_candidates = 9 ∷ [];
  dirty = true;
}

abbrev entry : ℕ → ℕ → Entry
entry number next_flush = record {
  number = number;
  timestamp = number + 100;
  next_flush = next_flush;
}

abbrev entries : List Entry
entries = entry 5 0 ∷ entry 3 700 ∷ entry 6 0 ∷ []

clear-kept_example :
    clear (with_entries base entries) 4 ≡ done (with_entries base (entry 5 0 ∷ entry 6 0 ∷ []))
clear-kept_example = clear-kept 4 base entries

flush-postponed_example :
    (l' : AckList) × (written : List AckSegment) × (flush
        (λ seg. seg)
        (with_entries base entries)
        500
        100
      ≡ done (l', written))
    × Holds l' (map (postponed 500 100) entries)
    × All (λ seg. length seg.number_list ≤ ack_number_limit) written
    × (length l'.flush_candidates ≤ candidates_cap)
    × (l'.dirty ≡ false)
flush-postponed_example =
    flush-postponed (λ seg. seg) 500 100 (with_entries base entries) entries (λ seg. refl) refl
