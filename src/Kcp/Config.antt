-- ===== src/Kcp/Config.antt =====
-- transport/internet/kcp/config.go: the settings of the transport, and KCPConfig.Build of
-- infra/conf/transport_internet.go, which makes them from the JSON configuration. A message field that
-- may be nil is an Option; a nil *Config and the seed's cipher are left out. The packet header's
-- configuration is of other packages: its loader and its Build are a parameter of `build`.
pub mod Bounds
mod Tests
use v2root_core.Base.{
  ℕ, zero, suc, ◌+◌, ◌*◌, ◌/◌, Bool, true, false, ◌||◌, Option, none, some, List, [], ◌∷◌, ltb,
  ◌==◌, if◌then◌else◌,
}
use v2root_core.Base.Words.{mul32}
use v2root_core.Base.Outcome.{Outcome, done, invalid, panic, ensure, ◌>>=◌, ◌>>◌}
use v2root_core.Kcp.Sending.{Settings}

pub record Config : Type 0 where
  pub mtu : Option ℕ
  pub tti : Option ℕ
  pub uplink_capacity : Option ℕ
  pub downlink_capacity : Option ℕ
  pub congestion : Bool
  pub write_buffer : Option ℕ
  pub read_buffer : Option ℕ
  pub header_config : Option (List ℕ)
  pub seed : Option (List ℕ)

abbrev value_or : ℕ → Option ℕ → ℕ
value_or default none = default
value_or default (some v) = v

pub mtu_value : Config → ℕ
mtu_value c = value_or 1350 c.mtu

pub tti_value : Config → ℕ
tti_value c = value_or 50 c.tti

pub uplink_capacity_value : Config → ℕ
uplink_capacity_value c = value_or 5 c.uplink_capacity

pub downlink_capacity_value : Config → ℕ
downlink_capacity_value c = value_or 20 c.downlink_capacity

pub write_buffer_size : Config → ℕ
write_buffer_size c = value_or (2 * 1024 * 1024) c.write_buffer

pub read_buffer_size : Config → ℕ
read_buffer_size c = value_or (2 * 1024 * 1024) c.read_buffer

-- Division on uint32; one by zero panics.
abbrev pub divide : ℕ → ℕ → Outcome ℕ
divide a b = if b == 0 then panic else done (a / b)

-- The size for a capacity, at least 8.
pub in_flight_size : ℕ → ℕ → ℕ → Outcome ℕ
in_flight_size capacity mtu tti = do
  packets ← divide (mul32 (mul32 capacity 1024) 1024) mtu
  rounds ← divide 1000 tti
  size ← divide packets rounds
  done (if ltb size 8 then 8 else size)

pub sending_in_flight_size : Config → Outcome ℕ
sending_in_flight_size c = in_flight_size (uplink_capacity_value c) (mtu_value c) (tti_value c)

pub sending_buffer_size : Config → Outcome ℕ
sending_buffer_size c = divide (write_buffer_size c) (mtu_value c)

pub receiving_in_flight_size : Config → Outcome ℕ
receiving_in_flight_size c = in_flight_size (downlink_capacity_value c) (mtu_value c) (tti_value c)

pub receiving_buffer_size : Config → Outcome ℕ
receiving_buffer_size c = divide (read_buffer_size c) (mtu_value c)

-- What a sending worker of conversation `conv` reads of its configuration.
pub settings : ℕ → Config → Outcome Settings
settings conv c = do
  in_flight ← sending_in_flight_size c
  buffer ← sending_buffer_size c
  done (record {
    conversation = conv;
    congestion = c.congestion;
    in_flight = in_flight;
    buffer = buffer;
  })

-- KCPConfig. The header is the bytes of its JSON text.
pub record KcpConfig : Type 0 where
  pub mtu : Option ℕ
  pub tti : Option ℕ
  pub up_cap : Option ℕ
  pub down_cap : Option ℕ
  pub congestion : Option Bool
  pub read_buffer_size : Option ℕ
  pub write_buffer_size : Option ℕ
  pub header_config : List ℕ
  pub seed : Option (List ℕ)

-- A value between the bounds, or none at all.
abbrev pub in_range : ℕ → ℕ → Option ℕ → Bool
in_range low high none = true
in_range low high (some v) = if ltb v low || ltb high v then false else true

-- A size in MB, 0 for half of one.
abbrev pub buffer_bytes : Option ℕ → Option ℕ
buffer_bytes none = none
buffer_bytes (some size) = some (if ltb 0 size then mul32 (mul32 size 1024) 1024 else 512 * 1024)

abbrev or_false : Option Bool → Bool
or_false none = false
or_false (some b) = b

-- The settings that `Build` makes of its input and the typed message of the header, if there is one.
pub built : KcpConfig → Option (List ℕ) → Config
built c header = record {
  mtu = c.mtu;
  tti = c.tti;
  uplink_capacity = c.up_cap;
  downlink_capacity = c.down_cap;
  congestion = or_false c.congestion;
  write_buffer = buffer_bytes c.write_buffer_size;
  read_buffer = buffer_bytes c.read_buffer_size;
  header_config = header;
  seed = c.seed;
}

-- The packet header's configuration. `load` is `kcpHeaderLoader.Load` and `Build` of what it gives, up to the
-- typed message; `none` is an error of either.
pub header_of : (List ℕ → Option (List ℕ)) → List ℕ → Outcome (Option (List ℕ))
header_of load [] = done none
header_of load (x ∷ json) = elim (load (x ∷ json)) [ none ↦ invalid | some h ↦ done (some h) ]

-- `Build`: `invalid` is its error.
pub build : (List ℕ → Option (List ℕ)) → KcpConfig → Outcome Config
unfolding header_of
build load c = do
  ensure (in_range 576 1460 c.mtu)
  ensure (in_range 10 100 c.tti)
  header ← header_of load c.header_config
  done (built c header)
