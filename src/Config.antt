-- ===== src/Config.antt =====
-- src/lib/core/config.c: the defaults, the configuration file and the command line.
--
-- The file comes as the members of its JSON object (json-parser), the command line as the options that
-- getopt_long finds. What ends the program (FATAL, exit) is the result `none`, or `stop`.
pub mod Load
pub mod Parse
use Prim.Native.String.{String}
use xsocks.Base.{
  ℕ, Bool, true, false, not, ◌||◌, List, [], ◌∷◌, Option, none, some, ◌==◌, if◌then◌else◌,
}
use xsocks.Base.Int.{ℤ, pos, negsuc}

-- `json_value`, with an integer as its conversion to `int` leaves it; `other` is an object, an array or
-- a double.
pub data Json : Type 0 where
  string : String → Json
  integer : ℤ → Json
  boolean : Bool → Json
  null : Json
  other : Json

-- What the code calls of the C library and of the file system: `text` and `bytes` turn
-- bytes into a string and back, `atoi_bytes` is atoi of the text of a port, `same` is strcasecmp, `writable` says
-- whether a log file can be opened, `members` are those of the JSON object in a file, if it is one.
pub record Calls : Type 0 where
  pub atoi : String → ℤ
  pub text : List ℕ → String
  pub bytes : String → List ℕ
  pub atoi_bytes : List ℕ → ℕ
  pub same : String → String → Bool
  pub writable : String → Bool
  pub members : String → Option (List (String × Json))

-- `xsocksConfig`; a text is NULL or a string, and a switch is 0 or 1.
pub record Config : Type 0 where
  pub pidfile : Option String
  pub daemonize : ℤ
  pub remote_addr : Option String
  pub remote_port : ℤ
  pub local_addr : Option String
  pub local_port : ℤ
  pub password : Option String
  pub tunnel_address : Option String
  pub tunnel_addr : Option (List ℕ)
  pub tunnel_port : ℤ
  pub key : Option String
  pub method : Option String
  pub timeout : ℤ
  pub fast_open : ℤ
  pub reuse_port : ℤ
  pub mode : ℤ
  pub mtu : ℤ
  pub loglevel : ℤ
  pub logfile : Option String
  pub logfile_line : ℤ
  pub use_syslog : ℤ
  pub ipv6_first : ℤ
  pub ipv6_only : ℤ
  pub no_delay : ℤ
  pub acl : Option String

-- MODE_TCP_ONLY, MODE_UDP_ONLY, MODE_TCP_AND_UDP
abbrev pub mode_tcp_only : ℤ
mode_tcp_only = pos 1

abbrev pub mode_udp_only : ℤ
mode_udp_only = pos 2

abbrev pub mode_tcp_and_udp : ℤ
mode_tcp_and_udp = pos 3

-- LOGLEVEL_NOTICE
abbrev pub loglevel_notice : ℤ
loglevel_notice = pos 2

-- `loglevel_enum`
abbrev pub loglevel_enum : List (String × ℤ)
loglevel_enum =
    ("debug", pos 0)
    ∷ ("info", pos 1)
    ∷ ("notice", pos 2)
    ∷ ("warning", pos 3)
    ∷ ("error", pos 4)
    ∷ []

-- INT_MIN
abbrev pub int_min : ℤ
int_min = negsuc 2147483647

-- `configNew`
abbrev pub config_new : Config
config_new = record {
  pidfile = none;
  daemonize = pos 0;
  remote_addr = some "127.0.0.1";
  remote_port = pos 8388;
  local_addr = none;
  local_port = pos 1080;
  password = some "foobar";
  tunnel_address = some "8.8.8.8:53";
  tunnel_addr = none;
  tunnel_port = pos 0;
  key = none;
  method = some "aes-256-cfb";
  timeout = pos 60;
  fast_open = pos 0;
  reuse_port = pos 0;
  mode = mode_tcp_only;
  mtu = pos 0;
  loglevel = loglevel_notice;
  logfile = none;
  logfile_line = pos 0;
  use_syslog = pos 1;
  ipv6_first = pos 0;
  ipv6_only = pos 1;
  no_delay = pos 0;
  acl = none;
}

-- `configEnumGetValue`: INT_MIN where no name matches.
pub enum_value : Calls → List (String × ℤ) → String → ℤ
enum_value lib [] name = int_min
enum_value lib ((n, v) ∷ rest) name = if lib.same n name then v else enum_value lib rest name
