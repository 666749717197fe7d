-- ===== src/Parser/Net.antt =====
-- What v2root/parser.go takes from the packages net/url, encoding/base64, encoding/json and os: the
-- operations are parameters, a record of functions.
use Prim.Native.String.{String}
use v2root_core.Base.{Bool, Option, List}
use v2root_core.Parser.Values.{Values}

-- The parts of a url.URL that are read; the user is `none` for a nil User.
pub record Url : Type 0 where
  pub username : Option String
  pub userinfo : String
  pub hostname : String
  pub port : String
  pub query : Values
  pub fragment : String

-- A value of a JSON object: a text, or another value with the text that `%v` prints for it.
pub data Json : Type 0 where
  text_value : String → Json
  other_value : String → Json

abbrev pub Data : Type 0
Data = List (String × Json)

-- A failure is `none`; `exists` is `os.Stat` without an error.
pub record Net : Type 0 where
  pub parse_url : String → Option Url
  pub path_unescape : String → Option String
  pub path_escape : String → String
  pub query_escape : String → String
  pub encode_query : Values → String
  pub std_decode : String → Option String
  pub std_encode : String → String
  pub raw_url_decode : String → Option String
  pub url_encode : String → String
  pub read_json : String → Option Data
  pub write_json : Data → String
  pub exists : String → Bool
