-- ===== src/Config/Parse/Tests.antt =====
-- A command line over a file: src/lib/core/config.c.
use xsocks.Base.{◌≡◌, refl, true, false, List, [], ◌∷◌, some}
use xsocks.Base.Int.{pos, negsuc}
use xsocks.Config.{string, integer, Calls, Config, config_new}
use xsocks.Config.Load.{config_load, load_members, directive, to_string, to_integer}
use xsocks.Config.Parse.{
  Opt, Outcome, configured, string_dup, int_dup, option, options, overlay, loaded, finish,
  split_tunnel, config_parse,
}
use xsocks.Config.Parse.Example.{udp_calls, udp_line, udp_result, udp_line-parsed}
use xsocks.Config.Parse.Mode.{is_mode, config_parse-mode}
use xsocks.Config.Parse.Precedence.{
  last, or, file_server, addr_of, path_of, port_of, config_parse-precedence,
}

-- every number is 9, and there is one file
abbrev calls : Calls
calls = record {
  atoi = λ s. pos 9;
  text = λ bs. "9";
  bytes = λ s. [];
  atoi_bytes = λ bs. 9;
  same = λ a b. true;
  writable = λ file. true;
  members = λ file. some (("server", string "f") ∷ ("server_port", integer (pos 7)) ∷ []);
}

abbrev line : List Opt
line = Opt.remote_addr "a" ∷ Opt.conf_path "x" ∷ Opt.remote_addr "b" ∷ []

abbrev config_of : Outcome → Config
config_of Outcome.ends = config_new
config_of (configured h c) = c

abbrev result : Config
result = config_of (config_parse calls line)

-- the last -s, and the port of the file
line-parsed : config_parse calls line ≡ configured false result
unfolding config_parse options option finish overlay split_tunnel loaded config_load load_members
    directive to_string to_integer
line-parsed = refl

config_parse-precedence_example :
    (f : Config) × (loaded calls config_new (last path_of line) ≡ some f)
    × (result.remote_addr ≡ string_dup (file_server calls (last path_of line)) (last addr_of line))
    × (result.remote_port ≡ int_dup f.remote_port (or (last (port_of calls) line) (negsuc 0)))
config_parse-precedence_example = config_parse-precedence calls line false result line-parsed

config_parse-mode_example : is_mode udp_result.mode ≡ true
config_parse-mode_example = config_parse-mode udp_calls udp_line false udp_result udp_line-parsed
