-- ===== src/Kcp/Config/Bounds.antt =====
-- Configurations that Build accepts: no division by zero, and sizes within the bounds that the
-- sending worker's arithmetic needs.
use v2root_core.Base.{
  ℕ, ◌*◌, ◌/◌, ◌≤◌, ◌<◌, ◌^◌, ◌≡◌, ◌≢◌, refl, List, [], Option, none, some, ltb, if◌then◌else◌,
  arith, ne→==,
}
use native.Mathlib.Nat.{div-mul-le_self, mul-le-mul_right, le-div_iff_mul-le}
use v2root_core.Base.Words.{mul32}
use v2root_core.Base.Outcome.{done, Completes}
use v2root_core.Kcp.Config.{
  Config, divide, in_flight_size, mtu_value, tti_value, sending_in_flight_size,
  receiving_in_flight_size, sending_buffer_size, uplink_capacity_value, downlink_capacity_value,
  write_buffer_size, settings,
}

-- The MTU and the TTI are in the ranges of the configuration's check.
pub record IsValid (c : Config) : Type 0 where
  pub mtu_low : 576 ≤ mtu_value c
  pub mtu_high : mtu_value c ≤ 1460
  pub tti_low : 10 ≤ tti_value c
  pub tti_high : tti_value c ≤ 100

-- The header is given, and its loader or its Build refuses it.
abbrev pub HeaderRefused : (List ℕ → Option (List ℕ)) → List ℕ → Type 0
HeaderRefused load json = (json ≢ []) × (load json ≡ none)

-- The typed message of the header: none without a header, otherwise what the loader makes of it.
abbrev pub IsHeader : (List ℕ → Option (List ℕ)) → List ℕ → Option (List ℕ) → Type 0
IsHeader load json none = json ≡ []
IsHeader load json (some h) = (json ≢ []) × (load json ≡ some h)

-- A quotient by at least `low`.
quotient-le : (a d low : ℕ) → low ≤ d → (a / d) * low ≤ a
quotient-le a d low h = omega (arith, div-mul-le_self a d, mul-le-mul_right (a / d) h)

rounds-le : (tti : ℕ) → 10 ≤ tti → tti ≤ 100 → 10 ≤ 1000 / tti
rounds-le tti l h = (le-div_iff_mul-le {k = tti} {x = 10} {y = 1000} (omega arith)).1 (omega arith)

divide-done : (a b : ℕ) → 0 < b → divide a b ≡ done (a / b)
divide-done a b h = rw (ne→== b 0 (λ e. omega arith)) refl

in_flight_size_bounds :
    (capacity mtu tti : ℕ)
    → 576 ≤ mtu
    → 10 ≤ tti
    → tti ≤ 100
    → (size : ℕ) × (in_flight_size capacity mtu tti ≡ done size) × (8 ≤ size) × (size * 20 < 2 ^ 32)
unfolding in_flight_size
in_flight_size_bounds capacity mtu tti m l h =
    let packets : ℕ = mul32 (mul32 capacity 1024) 1024 / mtu in
    let size : ℕ = packets / (1000 / tti) in
    let few : packets * 576 < 2 ^ 32 =
      omega (arith, quotient-le (mul32 (mul32 capacity 1024) 1024) mtu 576 m) in
    let small : size * 10 ≤ packets = quotient-le packets (1000 / tti) 10 (rounds-le tti l h) in
    (
      (if ltb size 8 then 8 else size),
      rw
          (
            divide-done (mul32 (mul32 capacity 1024) 1024) mtu (omega (arith, m)),
            divide-done 1000 tti (omega (arith, l)),
            divide-done packets (1000 / tti) (omega (arith, rounds-le tti l h)),
          )
          refl,
      ground (arith, few, small),
      ground (arith, few, small),
    )

-- On a valid configuration the settings of a sending worker are computed without a division by
-- zero; the in-flight size is at least 8, and twenty times it fits 32 bits.
pub settings-bounds :
    (conv : ℕ) (c : Config)
    → IsValid c
    → Completes
        (λ s. (8 ≤ s.in_flight) × (s.in_flight * 20 < 2 ^ 32) × (s.congestion ≡ c.congestion))
        (settings conv c)
unfolding settings sending_in_flight_size sending_buffer_size
settings-bounds conv c v =
    let (size, e, low, high) =
      in_flight_size_bounds (uplink_capacity_value c) (mtu_value c) (tti_value c) v.mtu_low
        v.tti_low v.tti_high in
    rw (e, divide-done (write_buffer_size c) (mtu_value c) (omega (arith, v.mtu_low)))
      (low, high, refl)

-- On a valid configuration the receiving window's size is computed without a division by zero; it
-- is at least 8 and below 2^31, half of the numbers.
pub receiving_in_flight_size-bounds :
    (c : Config)
    → IsValid c
    → Completes (λ size. (8 ≤ size) × (size < 2 ^ 31)) (receiving_in_flight_size c)
unfolding receiving_in_flight_size
receiving_in_flight_size-bounds c v =
    let (size, e, low, high) =
      in_flight_size_bounds (downlink_capacity_value c) (mtu_value c) (tti_value c) v.mtu_low
        v.tti_low v.tti_high in
    rw e (low, omega (arith, high))
