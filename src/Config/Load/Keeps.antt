-- ===== src/Config/Load/Keeps.antt =====
-- What the directives of a configuration file (src/lib/core/config.c) do to the address of the server and
-- to the mode: only "server" and "mode" set them.
use Prim.Native.String.{String}
use xsocks.Base.{
  ◌≡◌, subst, Bool, true, false, Option, none, some, if◌then◌else◌, Option-cases, Bool-cases, inl,
  inr,
}
use xsocks.Base.Int.{ℤ, ℤ-eqb}
use xsocks.Config.{
  Json, string, integer, boolean, null, other, Calls, Config, mode_tcp_only, mode_udp_only,
  mode_tcp_and_udp, loglevel_enum, int_min, enum_value,
}
use xsocks.Config.Load.{
  is, bit, set_text, set_int, set_switch, directive, directive_more, to_string, to_integer,
  set_logfile, set_loglevel, set_mode, set_mtu, can_log,
}

module _ (lib : Calls) (Q : Option String → ℤ → Type 0) where
  -- a result, if there is one, has a good address and mode
  abbrev pub Keeps : Option Config → Type 0
  Keeps r = (c' : Config) → r ≡ some c' → Q c'.remote_addr c'.mode

  -- the modes that a file can set are good
  abbrev pub Known : Config → Type 0
  Known c =
      Q c.remote_addr mode_tcp_only
      × Q c.remote_addr mode_udp_only
      × Q c.remote_addr mode_tcp_and_udp

  none-Keeps : Keeps none
  none-Keeps c' e = cc

  unchanged : (c : Config) → Q c.remote_addr c.mode → Keeps (some c)
  unchanged c q c' e =
      let same : c ≡ c' = cc in subst (λ (x : Config). Q x.remote_addr x.mode) same q

  if_Keeps : (b : Bool) {x y : Option Config} → Keeps x → Keeps y → Keeps (if b then x else y)
  if_Keeps true p q = p
  if_Keeps false p q = q

  text-Keeps :
      (put : Option String → Config) (v : Json)
      → ((s : Option String) → Q (put s).remote_addr (put s).mode)
      → Keeps (set_text lib put v)
  text-Keeps put v h = elim (Option-cases (to_string lib v)) [
    | inl lost ↦ rw (set_text, lost) none-Keeps
    | inr (s, got) ↦ rw (set_text, got) (unchanged (put s) (h s))
  ]

  int-Keeps :
      (put : ℤ → Config) (v : Json)
      → ((n : ℤ) → Q (put n).remote_addr (put n).mode)
      → Keeps (set_int lib put v)
  int-Keeps put v h = elim (Option-cases (to_integer lib v)) [
    | inl lost ↦ rw (set_int, lost) none-Keeps
    | inr (n, got) ↦ rw (set_int, got) (unchanged (put n) (h n))
  ]

  switch-Keeps :
      (put : ℤ → Config) (v : Json)
      → ((n : ℤ) → Q (put n).remote_addr (put n).mode)
      → Keeps (set_switch lib put v)
  switch-Keeps put (boolean b) h = unchanged (put (bit b)) (h (bit b))
  switch-Keeps put (string s) h = none-Keeps
  switch-Keeps put (integer n) h = none-Keeps
  switch-Keeps put null h = none-Keeps
  switch-Keeps put other h = none-Keeps

  mode-Keeps :
      (c : Config) (m : Option (Option String))
      → Q c.remote_addr c.mode
      → Known c
      → Keeps (set_mode lib c m)
  unfolding set_mode
  mode-Keeps c none q known = none-Keeps
  mode-Keeps c (some none) q known = unchanged (record c { mode = mode_tcp_only }) known.0
  mode-Keeps c (some (some m)) q known =
      if_Keeps (is m "tcp_only") (unchanged (record c { mode = mode_tcp_only }) known.0) (
        if_Keeps (is m "tcp_and_udp") (unchanged (record c { mode = mode_tcp_and_udp }) known.2) (
          if_Keeps (is m "udp_only") (unchanged (record c { mode = mode_udp_only }) known.1)
            (unchanged c q)))

  mtu-Keeps : (c : Config) (v : Json) → Q c.remote_addr c.mode → Keeps (set_mtu lib c v)
  unfolding set_mtu
  mtu-Keeps c (integer n) q = unchanged (record c { mtu = n }) q
  mtu-Keeps c (string s) q = none-Keeps
  mtu-Keeps c (boolean b) q = none-Keeps
  mtu-Keeps c null q = none-Keeps
  mtu-Keeps c other q = none-Keeps

  logfile-Keeps :
      (c : Config) (f : Option (Option String))
      → Q c.remote_addr c.mode
      → Keeps (set_logfile lib c f)
  unfolding set_logfile
  logfile-Keeps c none q = none-Keeps
  logfile-Keeps c (some f) q =
      if_Keeps (can_log lib f) (unchanged (record c { logfile = f }) q) none-Keeps

  loglevel-Keeps :
      (c : Config) (l : Option (Option String))
      → Q c.remote_addr c.mode
      → Keeps (set_loglevel lib c l)
  unfolding set_loglevel
  loglevel-Keeps c none q = none-Keeps
  loglevel-Keeps c (some none) q = none-Keeps
  loglevel-Keeps c (some (some l)) q =
      let level = enum_value lib loglevel_enum l in
      if_Keeps (ℤ-eqb level int_min) none-Keeps (unchanged (record c { loglevel = level }) q)

  more-Keeps :
      (c : Config) (name : String) (v : Json)
      → Q c.remote_addr c.mode
      → Known c
      → Keeps (directive_more lib c name v)
  unfolding directive_more
  more-Keeps c name v q known =
      if_Keeps (is name "logfile_line") (switch-Keeps (λ n. record c { logfile_line = n }) v λ n. q)
        (if_Keeps (is name "pidfile") (text-Keeps (λ s. record c { pidfile = s }) v λ s. q) (
          if_Keeps (is name "daemonize") (switch-Keeps (λ n. record c { daemonize = n }) v λ n. q) (
            if_Keeps (is name "tunnel_address")
              (text-Keeps (λ s. record c { tunnel_address = s }) v λ s. q)
              (if_Keeps (is name "mode") (mode-Keeps c (to_string lib v) q known) (
                if_Keeps (is name "mtu") (mtu-Keeps c v q) (
                  if_Keeps (is name "ipv6_first")
                    (switch-Keeps (λ n. record c { ipv6_first = n }) v λ n. q)
                    (if_Keeps (is name "ipv6_only")
                      (switch-Keeps (λ n. record c { ipv6_only = n }) v λ n. q)
                      (if_Keeps (is name "use_syslog")
                        (switch-Keeps (λ n. record c { use_syslog = n }) v λ n. q)
                        (if_Keeps (is name "no_delay")
                          (switch-Keeps (λ n. record c { no_delay = n }) v λ n. q)
                          (if_Keeps (is name "acl")
                            (text-Keeps (λ s. record c { acl = s }) v λ s. q) none-Keeps))))))))))

  -- any directive but "server"
  other-Keeps :
      (c : Config) (name : String) (v : Json)
      → is name "server" ≡ false
      → Q c.remote_addr c.mode
      → Known c
      → Keeps (directive lib c name v)
  unfolding directive
  other-Keeps c name v h q known =
      rw (directive, h)
        (if_Keeps (is name "server_port") (int-Keeps (λ n. record c { remote_port = n }) v λ n. q) (
          if_Keeps (is name "port_password") (unchanged c q) (
            if_Keeps (is name "local_address")
              (text-Keeps (λ s. record c { local_addr = s }) v λ s. q)
              (if_Keeps (is name "local_port")
                (int-Keeps (λ n. record c { local_port = n }) v λ n. q)
                (if_Keeps (is name "password")
                  (text-Keeps (λ s. record c { password = s }) v λ s. q)
                  (if_Keeps (is name "key") (text-Keeps (λ s. record c { key = s }) v λ s. q) (
                    if_Keeps (is name "method") (text-Keeps (λ s. record c { method = s }) v λ s. q)
                      (if_Keeps (is name "timeout")
                        (int-Keeps (λ n. record c { timeout = n }) v λ n. q)
                        (if_Keeps (is name "user") (unchanged c q) (
                          if_Keeps (is name "fast_open")
                            (switch-Keeps (λ n. record c { fast_open = n }) v λ n. q)
                            (if_Keeps (is name "reuse_port")
                              (switch-Keeps (λ n. record c { reuse_port = n }) v λ n. q)
                              (if_Keeps (is name "logfile") (logfile-Keeps c (to_string lib v) q) (
                                if_Keeps (is name "loglevel") (loglevel-Keeps c (to_string lib v) q)
                                  (more-Keeps c name v q known))))))))))))))

  pub directive-Keeps :
      (c : Config) (name : String) (v : Json)
      → (is name "server" ≡ true → (s : Option String) → Q s c.mode)
      → Q c.remote_addr c.mode
      → Known c
      → Keeps (directive lib c name v)
  unfolding directive
  directive-Keeps c name v server q known = elim (Bool-cases (is name "server")) [
    | inl is_server ↦
        rw (directive, is_server)
          (text-Keeps (λ s. record c { remote_addr = s }) v (server is_server))
    | inr differs ↦ other-Keeps c name v differs q known
  ]
