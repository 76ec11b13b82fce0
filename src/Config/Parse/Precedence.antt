-- ===== src/Config/Parse/Precedence.antt =====
-- Where the address and the port of the server come from: the last option on the command line, else the
-- last directive of the file, else the default.
use Prim.Native.String.{String}
use xsocks.Base.{
  ◌≡◌, Bool, false, List, [], ◌∷◌, Option, none, some, arith, Bool-cases, Option-cases, inl, inr,
}
use xsocks.Base.Int.{ℤ, negsuc}
use xsocks.Config.{Calls, Config, config_new}
use xsocks.Config.Load.{config_load}
use xsocks.Config.Load.Server.{last_of, server_in, load_members-server}
use xsocks.Config.Parse.{
  Opt, Options, no_options, configured, string_dup, int_dup, option, options, overlay, split_tunnel,
  loaded, finish, config_parse,
}

-- the last value that `pick` finds in the list
abbrev pub last : {A B : Type 0} → (A → Option B) → List A → Option B
last pick [] = none
last pick (x ∷ xs) = elim (last pick xs) [ none ↦ pick x | some v ↦ some v ]

abbrev pub or : {A : Type 0} → Option A → A → A
or none d = d
or (some v) d = v

-- the option -s
abbrev pub addr_of : Opt → Option String
addr_of (Opt.remote_addr s) = some s
addr_of x = none

-- the option -c
abbrev pub path_of : Opt → Option String
path_of (Opt.conf_path s) = some s
path_of x = none

module _ (lib : Calls) where
  -- the option -p
  abbrev pub port_of : Opt → Option ℤ
  port_of (Opt.remote_port s) = some (lib.atoi s)
  port_of x = none

  -- what one option, or all of them, do to three of the variables
  record Given (o : Options) (a p : Option String) (n : Option ℤ) (o' : Options) : Type 0 where
    addr : o'.remote_addr ≡ string_dup o.remote_addr a
    path : o'.conf_path ≡ string_dup o.conf_path p
    port : o'.remote_port ≡ or n o.remote_port

  option-Given :
      (o : Options) (x : Opt) → Given o (addr_of x) (path_of x) (port_of x) (option lib o x)
  unfolding option
  option-Given o x = ground arith

  options-Given :
      (o : Options) (xs : List Opt)
      → (options lib o xs).stop ≡ false
      → Given o (last addr_of xs) (last path_of xs) (last port_of xs) (options lib o xs)
  unfolding options
  options-Given o [] h = ground arith
  options-Given o (x ∷ xs) h = elim (Bool-cases o.stop) [
    | inl stopped ↦ ground (arith, stopped)
    | inr going ↦
        let g = option-Given o x in
        let gs = options-Given (option lib o x) xs (ground (arith, going)) in
        ground (arith, going, g, gs)
  ]

  split_tunnel-remote :
      (c : Config)
      → ((split_tunnel lib c).remote_addr ≡ c.remote_addr)
        × ((split_tunnel lib c).remote_port ≡ c.remote_port)
  unfolding split_tunnel
  split_tunnel-remote c = (ground arith, ground arith)

  -- the address in the file of the last -c, or the default
  abbrev pub file_server : Option String → Option String
  file_server none = config_new.remote_addr
  file_server (some path) = elim (lib.members path) [
    | none ↦ config_new.remote_addr
    | some ms ↦ last_of (server_in lib ms) config_new.remote_addr
  ]

  loaded-server :
      (path : Option String) (f : Config)
      → loaded lib config_new path ≡ some f
      → f.remote_addr ≡ file_server path
  unfolding loaded config_load
  loaded-server none f e = ground arith
  loaded-server (some path) f e = elim (Option-cases (lib.members path)) [
    | inl lost ↦ ground (arith, lost)
    | inr (ms, got) ↦
        ground (arith, got, load_members-server lib config_new f ms (rw (config_load, got) at e))
  ]

  -- Where `configParse` gives a configuration, the file of the last -c, if any, was loaded over
  -- the defaults. The address of the server is that of the last -s, else that of the last directive
  -- "server" of the file, else the default; its port is that of the last -p if there is one and it is
  -- not negative, else that of the file or the default.
  pub config_parse-precedence :
      (xs : List Opt) (h : Bool) (c : Config)
      → config_parse lib xs ≡ configured h c
      → (f : Config) × (loaded lib config_new (last path_of xs) ≡ some f)
        × (c.remote_addr ≡ string_dup (file_server (last path_of xs)) (last addr_of xs))
        × (c.remote_port ≡ int_dup f.remote_port (or (last port_of xs) (negsuc 0)))
  unfolding config_parse finish overlay
  config_parse-precedence xs h c e = elim (Bool-cases (options lib no_options xs).stop) [
    | inl stopped ↦ absurd (cc (rw stopped at e))
    | inr going ↦
        let g = options-Given no_options xs going in
        elim (Option-cases (loaded lib config_new (options lib no_options xs).conf_path)) [
          | inl lost ↦ ground (arith, going, lost)
          | inr (f, got) ↦
              let path : (options lib no_options xs).conf_path ≡ last path_of xs =
                ground (arith, g) in
              let o = options lib no_options xs in
              let kept = split_tunnel-remote (overlay lib o f) in
              (
                f,
                rw path at got,
                ground (arith, going, got, g, kept.0, loaded-server _ f (rw path at got)),
                ground (arith, going, got, g, kept.1),
              )
        ]
  ]
