-- ===== src/Config/Parse.antt =====
-- `configParse` of src/lib/core/config.c: the command line over the file over the defaults.
pub mod Example
pub mod Mode
pub mod Precedence
mod Tests
use Prim.Native.String.{String}
use xsocks.Base.{
  ℕ, Bool, true, false, not, ◌&&◌, ◌||◌, List, [], ◌∷◌, Option, none, some, if◌then◌else◌,
}
use xsocks.Base.Int.{ℤ, pos, negsuc, ℤ-eqb}
use xsocks.Net.Resolve.{host_port_parse}
use xsocks.Config.{
  Calls, Config, config_new, mode_udp_only, mode_tcp_and_udp, loglevel_enum, int_min, enum_value,
}
use xsocks.Config.Load.{can_log, config_load}

-- What getopt_long finds: the cases of the `switch`.
pub data Opt : Type 0 where
  fast_open no_delay reuse_port tcp_and_udp udp_only verbose version help ipv6_first unknown : Opt
  mtu key acl loglevel logfile remote_addr remote_port local_addr local_port : String → Opt
  tunnel_address password pidfile timeout method conf_path : String → Opt

-- The variables of `configParse`; -1 and NULL say that an option is not given.
pub record Options : Type 0 where
  pub conf_path : Option String
  pub key : Option String
  pub logfile : Option String
  pub remote_addr : Option String
  pub local_addr : Option String
  pub tunnel_address : Option String
  pub password : Option String
  pub pidfile : Option String
  pub method : Option String
  pub acl : Option String
  pub fast_open : ℤ
  pub mtu : ℤ
  pub no_delay : ℤ
  pub reuse_port : ℤ
  pub loglevel : ℤ
  pub remote_port : ℤ
  pub local_port : ℤ
  pub daemonize : ℤ
  pub timeout : ℤ
  pub mode : ℤ
  pub ipv6_first : ℤ
  pub help : Bool
  pub wrong : Bool
  pub stop : Bool

abbrev unset : ℤ
unset = negsuc 0

abbrev pub no_options : Options
no_options = record {
  conf_path = none;
  key = none;
  logfile = none;
  remote_addr = none;
  local_addr = none;
  tunnel_address = none;
  password = none;
  pidfile = none;
  method = none;
  acl = none;
  fast_open = unset;
  mtu = unset;
  no_delay = unset;
  reuse_port = unset;
  loglevel = unset;
  remote_port = unset;
  local_port = unset;
  daemonize = unset;
  timeout = unset;
  mode = unset;
  ipv6_first = unset;
  help = false;
  wrong = false;
  stop = false;
}

-- `configStringDup` and `configIntDup`
abbrev pub string_dup : Option String → Option String → Option String
string_dup d none = d
string_dup d (some s) = some s

abbrev pub int_dup : ℤ → ℤ → ℤ
int_dup d (pos n) = pos n
int_dup d (negsuc n) = d

-- What the program does next: it ends (FATAL, or the version is printed), or has a configuration, where
-- `help` is CONFIG_ERR.
pub data Outcome : Type 0 where
  ends : Outcome
  configured : Bool → Config → Outcome

module _ (lib : Calls) where
  open lib use {atoi}

  -- the `switch`
  pub option : Options → Opt → Options
  option o Opt.fast_open = record o { fast_open = pos 1 }
  option o Opt.no_delay = record o { no_delay = pos 1 }
  option o Opt.reuse_port = record o { reuse_port = pos 1 }
  option o Opt.tcp_and_udp = record o { mode = mode_tcp_and_udp }
  option o Opt.udp_only = record o { mode = mode_udp_only }
  option o Opt.verbose = record o { loglevel = pos 0 }
  option o Opt.version = record o { stop = true }
  option o Opt.help = record o { help = true }
  option o Opt.ipv6_first = record o { ipv6_first = pos 1 }
  option o Opt.unknown = record o { wrong = true }
  option o (Opt.mtu s) = record o { mtu = atoi s }
  option o (Opt.key s) = record o { key = some s }
  option o (Opt.acl s) = record o { acl = some s }
  option o (Opt.loglevel s) =
      let level = enum_value lib loglevel_enum s in
      record o { loglevel = level; wrong = o.wrong || ℤ-eqb level int_min }
  option o (Opt.logfile s) = record o {
    logfile = some s;
    wrong = o.wrong || not (can_log lib (some s));
  }
  option o (Opt.remote_addr s) = record o { remote_addr = some s }
  option o (Opt.remote_port s) = record o { remote_port = atoi s }
  option o (Opt.local_addr s) = record o { local_addr = some s }
  option o (Opt.local_port s) = record o { local_port = atoi s }
  option o (Opt.tunnel_address s) = record o { tunnel_address = some s }
  option o (Opt.password s) = record o { password = some s }
  option o (Opt.pidfile s) = record o { daemonize = pos 1; pidfile = some s }
  option o (Opt.timeout s) = record o { timeout = atoi s }
  option o (Opt.method s) = record o { method = some s }
  option o (Opt.conf_path s) = record o { conf_path = some s }

  -- the loop over the options; the version ends it
  pub options : Options → List Opt → Options
  unfolding option
  options o [] = o
  options o (x ∷ xs) = if o.stop then o else options (option o x) xs

  -- the values that are given, over those of the file or the defaults
  pub overlay : Options → Config → Config
  overlay o c = record c {
    key = string_dup c.key o.key;
    logfile = string_dup c.logfile o.logfile;
    remote_addr = string_dup c.remote_addr o.remote_addr;
    local_addr = string_dup c.local_addr o.local_addr;
    tunnel_address = string_dup c.tunnel_address o.tunnel_address;
    password = string_dup c.password o.password;
    pidfile = string_dup c.pidfile o.pidfile;
    method = string_dup c.method o.method;
    acl = string_dup c.acl o.acl;
    loglevel = int_dup c.loglevel o.loglevel;
    remote_port = int_dup c.remote_port o.remote_port;
    local_port = int_dup c.local_port o.local_port;
    daemonize = int_dup c.daemonize o.daemonize;
    timeout = int_dup c.timeout o.timeout;
    mode = int_dup c.mode o.mode;
    reuse_port = int_dup c.reuse_port o.reuse_port;
    ipv6_first = int_dup c.ipv6_first o.ipv6_first;
    no_delay = int_dup c.no_delay o.no_delay;
    mtu = int_dup c.mtu o.mtu;
    fast_open = int_dup c.fast_open o.fast_open;
  }

  pub loaded : Config → Option String → Option Config
  unfolding config_load
  loaded c none = some c
  loaded c (some path) = config_load lib c path

  -- `tunnel_address` is split at its last colon; without one, `tunnel_addr` is an empty text.
  pub split_tunnel : Config → Config
  split_tunnel c = elim c.tunnel_address [
    | none ↦ c
    | some s ↦ elim (host_port_parse lib.atoi_bytes (lib.bytes s)) [
      | none ↦ record c { tunnel_addr = some []; tunnel_address = none }
      | some (host, port) ↦ record c {
        tunnel_addr = some host;
        tunnel_port = pos port;
        tunnel_address = none;
      }
    ]
  ]

  finish : Options → Option Config → Outcome
  unfolding overlay split_tunnel
  finish o none = ends
  finish o (some c) = if o.wrong then ends else configured o.help (split_tunnel (overlay o c))

  -- `configParse` of the configuration of `configNew`
  pub config_parse : List Opt → Outcome
  unfolding options finish loaded
  config_parse xs =
      let o = options no_options xs in
      if o.stop then ends else finish o (loaded config_new o.conf_path)
