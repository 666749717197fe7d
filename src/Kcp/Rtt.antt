-- ===== src/Kcp/Rtt.antt =====
-- transport/internet/kcp/connection.go, RoundTripInfo: the estimate of the round trip time and the
-- retransmission timeout. All fields are uint32; every operation on them wraps.
pub mod Bounds
mod Tests
use v2root_core.Base.{ℕ, ◌/◌, if◌then◌else◌, ltb, ◌==◌}
use v2root_core.Base.Words.{add32, sub32, mul32}

pub record RoundTripInfo : Type 0 where
  pub variation : ℕ
  pub srtt : ℕ
  pub rto : ℕ
  pub min_rtt : ℕ
  pub updated_timestamp : ℕ

-- The initial value that `NewConnection` gives.
abbrev pub new_round_trip_info : ℕ → RoundTripInfo
new_round_trip_info tti = record {
  variation = 0;
  srtt = 0;
  rto = 100;
  min_rtt = tti;
  updated_timestamp = 0;
}

pub update_peer_rto : RoundTripInfo → ℕ → ℕ → RoundTripInfo
update_peer_rto info rto current =
    if ltb (sub32 current info.updated_timestamp) 3000
    then info
    else record info { updated_timestamp = current; rto = rto }

-- `delta`: the distance between the sample and the smoothed value.
abbrev delta : ℕ → ℕ → ℕ
delta rtt srtt = if ltb rtt srtt then sub32 srtt rtt else sub32 rtt srtt

-- RFC 6298: the first sample sets both values, a later one moves them.
smooth : RoundTripInfo → ℕ → RoundTripInfo
smooth info rtt =
    if info.srtt == 0 then record info { srtt = rtt; variation = rtt / 2 } else record info {
      variation = add32 (mul32 3 info.variation) (delta rtt info.srtt) / 4;
      srtt =
          let srtt = add32 (mul32 7 info.srtt) rtt / 8 in
          if ltb srtt info.min_rtt then info.min_rtt else srtt;
    }

-- The timeout before it is stretched by a quarter.
base_rto : RoundTripInfo → ℕ
base_rto info =
    let rto =
      if ltb info.min_rtt (mul32 4 info.variation)
      then add32 info.srtt (mul32 4 info.variation)
      else add32 info.srtt info.variation in
    if ltb 10000 rto then 10000 else rto

pub update : RoundTripInfo → ℕ → ℕ → RoundTripInfo
update info rtt current =
    if ltb 0x7FFFFFFF rtt
    then info
    else (let info' = smooth info rtt in
        record info' { rto = mul32 (base_rto info') 5 / 4; updated_timestamp = current })

pub timeout : RoundTripInfo → ℕ
timeout info = info.rto

pub smoothed_time : RoundTripInfo → ℕ
smoothed_time info = info.srtt
