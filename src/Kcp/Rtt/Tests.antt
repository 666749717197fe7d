-- ===== src/Kcp/Rtt/Tests.antt =====
-- Runs of RoundTripInfo on concrete samples.
use v2root_core.Base.{◌≡◌, arith}
use v2root_core.Kcp.Rtt.{RoundTripInfo, update}
use v2root_core.Kcp.Rtt.Bounds.{IsSettled, update-ideal, update-IsSettled}

abbrev measured : RoundTripInfo
measured = record { variation = 20; srtt = 80; rto = 200; min_rtt = 50; updated_timestamp = 1000 }

update-ideal_example :
    update measured 120 2000
    ≡ record { variation = 25; srtt = 85; rto = 231; min_rtt = 50; updated_timestamp = 2000 }
update-ideal_example = update-ideal measured 120 2000 (ground arith) (omega arith)

update-IsSettled_example : IsSettled (update measured 120 2000)
update-IsSettled_example = update-IsSettled measured 120 2000 (ground arith) (omega arith)
