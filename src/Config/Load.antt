-- ===== src/Config/Load.antt =====
-- `configLoad` of src/lib/core/config.c: the directives of the configuration file.
pub mod Keeps
pub mod Server
mod Tests
use Prim.Native.String.{String}
use text.Mathlib.Text.{◌==◌}
use xsocks.Base.{ℕ, Bool, true, false, not, List, [], ◌∷◌, Option, none, some, if◌then◌else◌}
use xsocks.Base.Int.{ℤ, pos, ℤ-eqb}
use xsocks.Utils.{xs_itoa}
use xsocks.Config.{
  Json, string, integer, boolean, null, other, Calls, Config, mode_tcp_only, mode_udp_only,
  mode_tcp_and_udp, loglevel_enum, int_min, enum_value,
}

abbrev pub is : String → String → Bool
is a b = a == b

abbrev bit : Bool → ℤ
bit true = pos 1
bit false = pos 0

module _ (lib : Calls) where
  open lib use {atoi, text, writable}

  -- `to_integer`; FATAL for other types
  unfoldable pub to_integer : Json → Option ℤ
  to_integer (string s) = some (atoi s)
  to_integer (integer n) = some n
  to_integer (boolean b) = some (bit b)
  to_integer null = some (pos 0)
  to_integer other = none

  -- `to_string`: NULL for null; FATAL for other types
  unfoldable pub to_string : Json → Option (Option String)
  to_string (string s) = some (some s)
  to_string (integer n) = some (some (text (xs_itoa n)))
  to_string (boolean b) = none
  to_string null = some none
  to_string other = none

  abbrev set_text : (Option String → Config) → Json → Option Config
  set_text put v = elim (to_string v) [ none ↦ none | some s ↦ some (put s) ]

  abbrev set_int : (ℤ → Config) → Json → Option Config
  set_int put v = elim (to_integer v) [ none ↦ none | some n ↦ some (put n) ]

  -- a directive that must be a boolean
  abbrev set_switch : (ℤ → Config) → Json → Option Config
  set_switch put (boolean b) = some (put (bit b))
  set_switch put (string s) = none
  set_switch put (integer n) = none
  set_switch put null = none
  set_switch put other = none

  -- `testLogfile` succeeds
  abbrev pub can_log : Option String → Bool
  can_log none = true
  can_log (some file) = if is file "" then true else writable file

  set_logfile : Config → Option (Option String) → Option Config
  set_logfile c none = none
  set_logfile c (some file) = if can_log file then some (record c { logfile = file }) else none

  -- a level that is null is passed to strcasecmp as NULL: the program ends there too
  set_loglevel : Config → Option (Option String) → Option Config
  set_loglevel c none = none
  set_loglevel c (some none) = none
  set_loglevel c (some (some name)) =
      let level = enum_value lib loglevel_enum name in
      if ℤ-eqb level int_min then none else some (record c { loglevel = level })

  -- an unknown mode is ignored
  set_mode : Config → Option (Option String) → Option Config
  set_mode c none = none
  set_mode c (some none) = some (record c { mode = mode_tcp_only })
  set_mode c (some (some m)) =
      if is m "tcp_only"
      then some (record c { mode = mode_tcp_only })
      else if is m "tcp_and_udp"
      then some (record c { mode = mode_tcp_and_udp })
      else if is m "udp_only"
      then some (record c { mode = mode_udp_only })
      else some c

  set_mtu : Config → Json → Option Config
  set_mtu c (integer n) = some (record c { mtu = n })
  set_mtu c (string s) = none
  set_mtu c (boolean b) = none
  set_mtu c null = none
  set_mtu c other = none

  -- one member of the object, the second half of the comparisons
  directive_more : Config → String → Json → Option Config
  unfolding set_mode set_mtu to_string
  directive_more c name v =
      if is name "logfile_line"
      then set_switch (λ n. record c { logfile_line = n }) v
      else if is name "pidfile"
      then set_text (λ s. record c { pidfile = s }) v
      else if is name "daemonize"
      then set_switch (λ n. record c { daemonize = n }) v
      else if is name "tunnel_address"
      then set_text (λ s. record c { tunnel_address = s }) v
      else if is name "mode"
      then set_mode c (to_string v)
      else if is name "mtu"
      then set_mtu c v
      else if is name "ipv6_first"
      then set_switch (λ n. record c { ipv6_first = n }) v
      else if is name "ipv6_only"
      then set_switch (λ n. record c { ipv6_only = n }) v
      else if is name "use_syslog"
      then set_switch (λ n. record c { use_syslog = n }) v
      else if is name "no_delay"
      then set_switch (λ n. record c { no_delay = n }) v
      else if is name "acl"
      then set_text (λ s. record c { acl = s }) v
      else none

  -- one member of the object
  unfoldable pub directive : Config → String → Json → Option Config
  unfolding directive_more set_logfile set_loglevel to_string to_integer
  directive c name v =
      if is name "server"
      then set_text (λ s. record c { remote_addr = s }) v
      else if is name "server_port"
      then set_int (λ n. record c { remote_port = n }) v
      else if is name "port_password"
      then some c
      else if is name "local_address"
      then set_text (λ s. record c { local_addr = s }) v
      else if is name "local_port"
      then set_int (λ n. record c { local_port = n }) v
      else if is name "password"
      then set_text (λ s. record c { password = s }) v
      else if is name "key"
      then set_text (λ s. record c { key = s }) v
      else if is name "method"
      then set_text (λ s. record c { method = s }) v
      else if is name "timeout"
      then set_int (λ n. record c { timeout = n }) v
      else if is name "user"
      then some c
      else if is name "fast_open"
      then set_switch (λ n. record c { fast_open = n }) v
      else if is name "reuse_port"
      then set_switch (λ n. record c { reuse_port = n }) v
      else if is name "logfile"
      then set_logfile c (to_string v)
      else if is name "loglevel"
      then set_loglevel c (to_string v)
      else directive_more c name v

  -- the loop of `configLoad` over the members
  unfoldable pub load_members : Config → List (String × Json) → Option Config
  unfolding directive
  load_members c [] = some c
  load_members c ((name, v) ∷ rest) = elim (directive c name v) [
    | none ↦ none
    | some c' ↦ load_members c' rest
  ]

  -- `configLoad`
  unfoldable pub config_load : Config → String → Option Config
  unfolding load_members
  config_load c path = elim (lib.members path) [ none ↦ none | some ms ↦ load_members c ms ]
