-- ===== src/Kcp/Rtt/Bounds.antt =====
-- RoundTripInfo: the bounds within which no operation wraps, and what the estimate then is.
use v2root_core.Base.{
  ℕ, ◌+◌, ◌-◌, ◌*◌, ◌/◌, ◌≤◌, ◌<◌, ◌≡◌, if◌then◌else◌, ltb, ◌==◌, arith, ◌⊎◌, ge→ltb,
}
use v2root_core.Base.Words.{mul32}
use v2root_core.Kcp.Rtt.{RoundTripInfo, update, smooth, base_rto}

-- Estimates of at most ten seconds.
pub record IsSettled (info : RoundTripInfo) : Type 0 where
  pub srtt_small : info.srtt ≤ 10000
  pub variation_small : info.variation ≤ 10000
  pub min_rtt_small : info.min_rtt ≤ 10000

-- The update on unbounded numbers.
abbrev distance : ℕ → ℕ → ℕ
distance a b = (a - b) + (b - a)

abbrev max_of : ℕ → ℕ → ℕ
max_of a b = if ltb a b then b else a

abbrev min_of : ℕ → ℕ → ℕ
min_of a b = if ltb b a then b else a

abbrev pub ideal_srtt : RoundTripInfo → ℕ → ℕ
ideal_srtt info rtt =
    if info.srtt == 0 then rtt else max_of ((7 * info.srtt + rtt) / 8) info.min_rtt

abbrev pub ideal_variation : RoundTripInfo → ℕ → ℕ
ideal_variation info rtt =
    if info.srtt == 0 then rtt / 2 else (3 * info.variation + distance rtt info.srtt) / 4

abbrev pub ideal_rto : ℕ → ℕ → ℕ → ℕ
ideal_rto min_rtt srtt variation =
    min_of (srtt + (if ltb min_rtt (4 * variation) then 4 * variation else variation)) 10000 * 5 / 4

smooth-ideal :
    (info : RoundTripInfo) (rtt : ℕ)
    → IsSettled info
    → rtt < 10000
    → smooth info rtt
      ≡ record info { srtt = ideal_srtt info rtt; variation = ideal_variation info rtt }
unfolding smooth
smooth-ideal info rtt s h = ground arith

smooth-IsSettled :
    (info : RoundTripInfo) (rtt : ℕ) → IsSettled info → rtt < 10000 → IsSettled (smooth info rtt)
unfolding smooth
smooth-IsSettled info rtt s h = ground arith

base_rto-ideal :
    (info : RoundTripInfo)
    → IsSettled info
    → (mul32 (base_rto info) 5 / 4 ≡ ideal_rto info.min_rtt info.srtt info.variation)
unfolding base_rto
base_rto-ideal info s = ground arith

-- On settled values and a sample below ten seconds no step of `Update` wraps: the new smoothed time,
-- variation and timeout are the ones that the formulas give over unbounded numbers.
pub update-ideal :
    (info : RoundTripInfo) (rtt current : ℕ)
    → IsSettled info
    → rtt < 10000
    → update info rtt current ≡ record info {
      srtt = ideal_srtt info rtt;
      variation = ideal_variation info rtt;
      rto = ideal_rto info.min_rtt (ideal_srtt info rtt) (ideal_variation info rtt);
      updated_timestamp = current;
    }
unfolding update
update-ideal info rtt current s h = rw (
  ge→ltb 0x7FFFFFFF rtt (omega arith),
  base_rto-ideal (smooth info rtt) (smooth-IsSettled info rtt s h),
  smooth-ideal info rtt s h,
)

-- Settled values stay settled under Update with a sample below ten seconds.
pub update-IsSettled :
    (info : RoundTripInfo) (rtt current : ℕ)
    → IsSettled info
    → rtt < 10000
    → IsSettled (update info rtt current)
unfolding update
update-IsSettled info rtt current s h = ground (arith, smooth-IsSettled info rtt s h)

base_rto-le : (info : RoundTripInfo) → base_rto info ≤ 10000
unfolding base_rto
base_rto-le info = ground arith

-- Whatever the state and the sample were, a sample that is taken leaves a timeout of at most 12.5
-- seconds, and one above 0x7FFFFFFF changes nothing.
pub update-rto :
    (info : RoundTripInfo) (rtt current : ℕ)
    → ((rtt ≤ 0x7FFFFFFF)
        × ((update info rtt current).rto ≤ 12500)
        × ((update info rtt current).updated_timestamp ≡ current))
      ⊎ ((0x7FFFFFFF < rtt) × (update info rtt current ≡ info))
unfolding update
update-rto info rtt current = ground (arith, base_rto-le (smooth info rtt))
