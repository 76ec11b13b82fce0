-- ===== src/Config/Load/Tests.antt =====
-- A configuration file with two directives "server": src/lib/core/config.c.
use Prim.Native.String.{String}
use xsocks.Base.{◌≡◌, refl, true, List, [], ◌∷◌, some, none}
use xsocks.Base.Int.{pos}
use xsocks.Config.{Json, string, integer, Calls, Config, config_new}
use xsocks.Config.Load.{load_members, directive, to_string, to_integer}

abbrev calls : Calls
calls = record {
  atoi = λ s. pos 9;
  text = λ bs. "9";
  bytes = λ s. [];
  atoi_bytes = λ bs. 9;
  same = λ a b. true;
  writable = λ file. true;
  members = λ file. none;
}

abbrev members : List (String × Json)
members =
    ("server", string "a")
    ∷ ("server_port", integer (pos 7))
    ∷ ("server", string "b")
    ∷ ("timeout", integer (pos 5))
    ∷ []

abbrev loaded_file : Config
loaded_file = record config_new { remote_addr = some "b"; remote_port = pos 7; timeout = pos 5 }

members-loaded : load_members calls config_new members ≡ some loaded_file
unfolding load_members directive to_string to_integer
members-loaded = refl
