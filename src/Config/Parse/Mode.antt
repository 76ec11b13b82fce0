-- ===== src/Config/Parse/Mode.antt =====
-- The mode that `configParse` of src/lib/core/config.c leaves, from the defaults, the file and the
-- command line.
use Prim.Native.String.{String}
use xsocks.Base.{
  ◌≡◌, refl, Bool, true, ◌||◌, List, [], ◌∷◌, Option, none, some, arith, Bool-cases, Option-cases,
  inl, inr,
}
use xsocks.Base.Int.{ℤ, pos, negsuc, ℤ-eqb}
use xsocks.Config.{Json, Calls, Config, config_new, mode_tcp_only, mode_udp_only, mode_tcp_and_udp}
use xsocks.Config.Load.{load_members, directive, config_load}
use xsocks.Config.Load.Keeps.{directive-Keeps}
use xsocks.Config.Parse.{
  Opt, Options, no_options, configured, int_dup, option, options, overlay, split_tunnel, loaded,
  finish, config_parse,
}

abbrev pub is_mode : ℤ → Bool
is_mode z = ℤ-eqb z mode_tcp_only || ℤ-eqb z mode_udp_only || ℤ-eqb z mode_tcp_and_udp

-- a mode, or that of no option
abbrev is_given : ℤ → Bool
is_given z = ℤ-eqb z (negsuc 0) || is_mode z

module _ (lib : Calls) where
  option-mode :
      (o : Options) (x : Opt) → is_given o.mode ≡ true → is_given (option lib o x).mode ≡ true
  unfolding option
  option-mode o x h = ground (arith, h)

  options-mode :
      (o : Options) (xs : List Opt)
      → is_given o.mode ≡ true
      → is_given (options lib o xs).mode ≡ true
  unfolding options
  options-mode o [] h = h
  options-mode o (x ∷ xs) h = elim (Bool-cases o.stop) [
    | inl stopped ↦ ground (arith, stopped, h)
    | inr going ↦ ground (arith, going, options-mode (option lib o x) xs (option-mode o x h))
  ]

  directive-mode :
      (c c' : Config) (name : String) (v : Json)
      → directive lib c name v ≡ some c'
      → is_mode c.mode ≡ true
      → is_mode c'.mode ≡ true
  directive-mode c c' name v e h =
      directive-Keeps lib (λ a m. is_mode m ≡ true) c name v (λ is_server s. h) h (refl, refl, refl)
        c' e

  load_members-mode :
      (c f : Config) (ms : List (String × Json))
      → load_members lib c ms ≡ some f
      → is_mode c.mode ≡ true
      → is_mode f.mode ≡ true
  unfolding load_members
  load_members-mode c f [] e h = ground (arith, h)
  load_members-mode c f ((name, v) ∷ rest) e h = elim (Option-cases (directive lib c name v)) [
    | inl lost ↦ ground (arith, lost)
    | inr (c', got) ↦
        ground (arith, got, directive-mode c c' name v got h, load_members-mode c' f rest)
  ]

  loaded-mode :
      (c f : Config) (path : Option String)
      → loaded lib c path ≡ some f
      → is_mode c.mode ≡ true
      → is_mode f.mode ≡ true
  unfolding loaded config_load
  loaded-mode c f none e h = ground (arith, h)
  loaded-mode c f (some path) e h = elim (Option-cases (lib.members path)) [
    | inl lost ↦ ground (arith, lost)
    | inr (ms, got) ↦ load_members-mode c f ms (rw (config_load, got) at e) h
  ]

  int_dup-mode : (d n : ℤ) → is_mode d ≡ true → is_given n ≡ true → is_mode (int_dup d n) ≡ true
  int_dup-mode d (pos n) h g = ground (arith, g)
  int_dup-mode d (negsuc n) h g = h

  split_tunnel-mode : (c : Config) → (split_tunnel lib c).mode ≡ c.mode
  unfolding split_tunnel
  split_tunnel-mode c = ground arith

  -- Every configuration that `configParse` accepts, for any command line and any file, has one of the
  -- three modes, so a program is always asked for TCP or for UDP.
  pub config_parse-mode :
      (xs : List Opt) (h : Bool) (c : Config)
      → config_parse lib xs ≡ configured h c
      → is_mode c.mode ≡ true
  unfolding config_parse finish overlay
  config_parse-mode xs h c e =
      let o = options lib no_options xs in
      let given : is_given o.mode ≡ true = options-mode no_options xs refl in
      elim (Option-cases (loaded lib config_new o.conf_path)) [
        | inl lost ↦ ground (arith, lost)
        | inr (f, got) ↦ ground (
          arith,
          got,
          split_tunnel-mode (overlay lib o f),
          int_dup-mode f.mode o.mode (loaded-mode config_new f o.conf_path got refl) given,
        )
      ]
