-- ===== src/Config/Parse/Example.antt =====
-- A command line and its configuration, for examples: src/lib/core/config.c.
use xsocks.Base.{◌≡◌, refl, true, false, List, [], ◌∷◌, none, some}
use xsocks.Base.Int.{pos}
use xsocks.Net.Resolve.{host_port_parse, last_colon}
use xsocks.Config.{Calls, Config, config_new, mode_udp_only}
use xsocks.Config.Parse.{
  Opt, configured, option, options, overlay, loaded, finish, split_tunnel, config_parse,
}

-- every number is 9, and there is no file
abbrev pub udp_calls : Calls
udp_calls = record {
  atoi = λ s. pos 9;
  text = λ bs. "9";
  bytes = λ s. [];
  atoi_bytes = λ bs. 9;
  same = λ a b. true;
  writable = λ file. true;
  members = λ file. none;
}

-- -U -s a
abbrev pub udp_line : List Opt
udp_line = Opt.udp_only ∷ Opt.remote_addr "a" ∷ []

abbrev pub udp_result : Config
udp_result = record config_new {
  remote_addr = some "a";
  mode = mode_udp_only;
  tunnel_addr = some [];
  tunnel_address = none;
}

pub udp_line-parsed : config_parse udp_calls udp_line ≡ configured false udp_result
unfolding config_parse options option finish overlay split_tunnel loaded host_port_parse last_colon
udp_line-parsed = refl
