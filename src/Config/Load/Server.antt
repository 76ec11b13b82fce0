-- ===== src/Config/Load/Server.antt =====
-- The address of the server in a configuration file: the last directive "server" counts.
use Prim.Native.String.{String}
use xsocks.Base.{
  ◌≡◌, refl, true, List, [], ◌∷◌, Option, none, some, arith, if◌then◌else◌, Option-cases,
  Bool-cases, inl, inr,
}
use xsocks.Config.{Json, Calls, Config}
use xsocks.Config.Load.{is, set_text, load_members, directive, to_string}
use xsocks.Config.Load.Keeps.{directive-Keeps}

abbrev pub last_of : {A : Type 0} → Option A → A → A
last_of none d = d
last_of (some v) d = v

module _ (lib : Calls) where
  -- the value of the last directive "server", if there is one
  abbrev pub server_in : List (String × Json) → Option (Option String)
  server_in [] = none
  server_in ((name, v) ∷ rest) = elim (server_in rest) [
    | none ↦ if is name "server" then to_string lib v else none
    | some s ↦ some s
  ]

  text_set :
      (c c' : Config) (v : Json)
      → set_text lib (λ s. record c { remote_addr = s }) v ≡ some c'
      → c'.remote_addr ≡ last_of (to_string lib v) c.remote_addr
  text_set c c' v e = elim (Option-cases (to_string lib v)) [
    | inl lost ↦ ground (arith, lost)
    | inr (s, got) ↦ ground (arith, got)
  ]

  server_set :
      (c c' : Config) (name : String) (v : Json)
      → is name "server" ≡ true
      → directive lib c name v ≡ some c'
      → c'.remote_addr ≡ last_of (to_string lib v) c.remote_addr
  unfolding directive
  server_set c c' name v h e = text_set c c' v (rw (directive, h) at e)

  directive-server :
      (c c' : Config) (name : String) (v : Json)
      → directive lib c name v ≡ some c'
      → c'.remote_addr ≡ last_of (if is name "server" then to_string lib v else none) c.remote_addr
  directive-server c c' name v e = elim (Bool-cases (is name "server")) [
    | inl is_server ↦ ground (arith, is_server, server_set c c' name v is_server e)
    | inr differs ↦ ground (
      arith,
      differs,
      directive-Keeps lib (λ a m. a ≡ c.remote_addr) c name v (λ is_server. absurd cc) refl
          (refl, refl, refl) c' e,
    )
  ]

  -- When the directives of a file are loaded, the address of the server is the value of the last
  -- directive "server", or what it was before where there is none.
  pub load_members-server :
      (c f : Config) (ms : List (String × Json))
      → load_members lib c ms ≡ some f
      → f.remote_addr ≡ last_of (server_in ms) c.remote_addr
  unfolding load_members
  load_members-server c f [] e = ground arith
  load_members-server c f ((name, v) ∷ rest) e = elim (Option-cases (directive lib c name v)) [
    | inl lost ↦ ground (arith, lost)
    | inr (c', got) ↦
        ground (arith, got, directive-server c c' name v got, load_members-server c' f rest)
  ]
