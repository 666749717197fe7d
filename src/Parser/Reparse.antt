-- ===== src/Parser/Reparse.antt =====
-- Links that are written for a configuration and parsed again.
pub mod Vless
pub mod Shadowsocks
pub mod Trojan
use Prim.Native.String.{String}
use v2root_core.Base.{ℕ, ◌≡◌, Option, some}
use v2root_core.Parser.Text.{print}
use v2root_core.Parser.Values.{Values, get}
use v2root_core.Parser.Net.{Net, Url}
use v2root_core.Parser.Links.{remark_of}

-- What net/url reads of a link: its parts, as they were written.
pub record Reads (net : Net) (u : Url) (user address : String) (port : ℕ) (q : Values)
    (remark : String) : Type 0 where
  pub username : u.username ≡ some user
  pub hostname : u.hostname ≡ address
  pub port_text : u.port ≡ print port
  pub query : (k : String) → get u.query k ≡ get q k
  pub remark_text : remark_of net u ≡ remark
