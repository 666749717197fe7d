-- ===== src/Kcp/Config/Tests.antt =====
-- Runs of the configuration on one configuration with a header and on one without.
use v2root_core.Base.{
  ◌*◌, ◌≤◌, ◌<◌, ◌^◌, ◌≡◌, true, Option, none, some, ◌==◌, if◌then◌else◌, List, [], ◌∷◌, ℕ, arith,
}
use v2root_core.Base.Outcome.{Completes}
use v2root_core.Kcp.Config.{Config, KcpConfig, mtu_value, tti_value, settings}
use v2root_core.Kcp.Config.Bounds.{IsValid, settings-bounds}

abbrev masked : KcpConfig
masked = record {
  mtu = some 1200;
  tti = none;
  up_cap = some 50;
  down_cap = none;
  congestion = some true;
  read_buffer_size = none;
  write_buffer_size = some 0;
  header_config = 5 ∷ [];
  seed = none;
}

abbrev fast : Config
fast = record {
  mtu = some 1400;
  tti = some 20;
  uplink_capacity = some 100;
  downlink_capacity = none;
  congestion = true;
  write_buffer = none;
  read_buffer = none;
  header_config = none;
  seed = none;
}

fast-IsValid : IsValid fast
unfolding mtu_value tti_value
fast-IsValid = record {
  mtu_low = omega arith;
  mtu_high = omega arith;
  tti_low = omega arith;
  tti_high = omega arith;
}

-- A loader that knows one header.
abbrev load : List ℕ → Option (List ℕ)
load [] = none
load (x ∷ json) = if x == 5 then some (50 ∷ []) else none

settings-bounds_example :
    Completes
      (λ s. (8 ≤ s.in_flight) × (s.in_flight * 20 < 2 ^ 32) × (s.congestion ≡ true))
      (settings 7 fast)
settings-bounds_example = settings-bounds 7 fast fast-IsValid
