-- ===== src/Net/Sockets/Descriptors.antt =====
-- `netTcpNonBlockConnect` and `_netUdpServer` of src/lib/core/net.c lose no descriptor.
mod Tests
use xsocks.Base.{
  ℕ, ◌≡◌, refl, Bool, true, false, List, [], ◌∷◌, Option, none, some, ◌==◌, if◌then◌else◌, arith,
  ◌∙◌, Option-cases, inl, inr,
}
use xsocks.Net.Resolve.{Info}
use xsocks.Net.Sockets.{
  Sockets, connect_or, configure_or, connect_loop, net_tcp_non_block_connect, bind_socket,
  server_loop, net_udp_server,
}

-- What the code relies on: socket(2) opens a descriptor that was not open, close(2) closes one, and the
-- other calls open and close none.
pub record Descriptors (sys : Sockets) : Type 0 where
  pub is_open : ℕ → sys.World → Bool
  pub socket_new :
      (p : Info) (w : sys.World) (fd : ℕ)
      → (sys.socket p w).0 ≡ some fd
      → (is_open fd w ≡ false)
        × ((g : ℕ) → is_open g (sys.socket p w).1 ≡ (if g == fd then true else is_open g w))
  pub socket_fails :
      (p : Info) (w : sys.World) (g : ℕ)
      → (sys.socket p w).0 ≡ none
      → is_open g (sys.socket p w).1 ≡ is_open g w
  pub close_ends :
      (fd g : ℕ) (w : sys.World)
      → is_open g (sys.close fd w) ≡ (if g == fd then false else is_open g w)
  pub reuse_addr_open : (fd g : ℕ) (w : sys.World) → is_open g (sys.reuse_addr fd w).1 ≡ is_open g w
  pub non_block_open : (fd g : ℕ) (w : sys.World) → is_open g (sys.non_block fd w).1 ≡ is_open g w
  pub v6_only_open : (fd g : ℕ) (w : sys.World) → is_open g (sys.v6_only fd w).1 ≡ is_open g w
  pub bind_open :
      (fd g : ℕ) (p : Info) (w : sys.World) → is_open g (sys.bind fd p w).1 ≡ is_open g w
  pub connect_open :
      (fd g : ℕ) (p : Info) (w : sys.World) → is_open g (sys.connect fd p w).1 ≡ is_open g w

module _ (sys : Sockets) (d : Descriptors sys) where
  open sys use {World}
  open d use {is_open}

  -- is `g` the descriptor that a function returns?
  abbrev pub returned : Option ℕ → ℕ → Bool
  returned none g = false
  returned (some fd) g = g == fd

  -- The result `r` of a function called in `w`: the descriptor that it returns is open behind it, and
  -- every other one is as it was.
  abbrev pub Owned : World → Option ℕ × World → Type 0
  Owned w (r, w') = (g : ℕ) → is_open g w' ≡ (if returned r g then true else is_open g w)

  -- the same, inside a round that has opened `fd`
  abbrev Within : ℕ → World → World → Type 0
  Within fd w w1 =
      (is_open fd w ≡ false) × ((g : ℕ) → is_open g w1 ≡ (if g == fd then true else is_open g w))

  Same : World → World → Type 0
  Same w w' = (g : ℕ) → is_open g w' ≡ is_open g w

  kept : {fd : ℕ} {w w1 w2 : World} → Within fd w w1 → Same w1 w2 → Within fd w w2
  unfolding Same
  kept h k = (h.0, λ g. k g ∙ h.1 g)

  refuse-Owned : (fd : ℕ) (w w1 : World) → Within fd w w1 → Same w (sys.close fd w1)
  unfolding Same
  refuse-Owned fd w w1 h g = ground (arith, h.0, d.close_ends fd g w1, h.1 g)

  connect_or-Owned :
      (next : World → Option ℕ × World) (fd : ℕ) (p : Info) (w w1 : World)
      → ((u : World) → Owned u (next u))
      → Within fd w w1
      → Owned w (connect_or sys next fd p w1)
  unfolding connect_or Same
  connect_or-Owned next fd p w w1 n h g =
      let w2 = (sys.connect fd p w1).1 in
      let h2 = kept h (λ j. d.connect_open fd j p w1) in
      ground (arith, h2.1 g, refuse-Owned fd w w2 h2 g, n (sys.close fd w2) g)

  configure_or-Owned :
      (next : World → Option ℕ × World) (fd : ℕ) (p : Info) (w w1 : World)
      → ((u : World) → Owned u (next u))
      → Within fd w w1
      → Owned w (configure_or sys next fd p w1)
  unfolding configure_or Same
  configure_or-Owned next fd p w w1 n h g =
      let w2 = (sys.reuse_addr fd w1).1 in
      let w3 = (sys.non_block fd w2).1 in
      let h2 = kept h (λ j. d.reuse_addr_open fd j w1) in
      let h3 = kept h2 (λ j. d.non_block_open fd j w2) in
      ground (
        arith,
        refuse-Owned fd w w2 h2 g,
        refuse-Owned fd w w3 h3 g,
        connect_or-Owned next fd p w w3 n h3 g,
      )

  connect_loop-Owned : (ps : List Info) (w : World) → Owned w (connect_loop sys ps w)
  unfolding connect_loop
  connect_loop-Owned [] w g = refl
  connect_loop-Owned (p ∷ ps) w g = elim (Option-cases (sys.socket p w).0) [
    | inl refused ↦
        ground
          (arith, refused, d.socket_fails p w g refused, connect_loop-Owned ps (sys.socket p w).1 g)
    | inr (fd, made) ↦
        let h = d.socket_new p w fd made in
        ground (
          arith,
          made,
          configure_or-Owned (connect_loop sys ps) fd p w (sys.socket p w).1 (connect_loop-Owned ps)
              h g,
        )
  ]

  -- `netTcpNonBlockConnect` loses no descriptor: where it fails, just those are open behind it that were
  -- before, and where it returns a descriptor, that one as well. (The laws of `Descriptors` hold.)
  pub net_tcp_non_block_connect-Owned :
      (found : Option (List Info)) (w : World) → Owned w (net_tcp_non_block_connect sys found w)
  unfolding net_tcp_non_block_connect
  net_tcp_non_block_connect-Owned none w g = refl
  net_tcp_non_block_connect-Owned (some found) w g = connect_loop-Owned found w g

  v6_only_if-Same :
      (v6 : Bool) (fd : ℕ) (w : World) → Same w (if v6 then sys.v6_only fd w else (true, w)).1
  unfolding Same
  v6_only_if-Same true fd w g = d.v6_only_open fd g w
  v6_only_if-Same false fd w g = refl

  bind_socket-Owned :
      (v6 : Bool) (fd : ℕ) (p : Info) (w w0 : World)
      → Within fd w w0
      → Owned w (bind_socket sys v6 fd p w0)
  unfolding bind_socket Same
  bind_socket-Owned v6 fd p w w0 h g =
      let w1 = (if v6 then sys.v6_only fd w0 else (true, w0)).1 in
      let w2 = (sys.reuse_addr fd w1).1 in
      let w3 = (sys.bind fd p w2).1 in
      let h1 = kept h (v6_only_if-Same v6 fd w0) in
      let h2 = kept h1 (λ j. d.reuse_addr_open fd j w1) in
      let h3 = kept h2 (λ j. d.bind_open fd j p w2) in
      ground (
        arith,
        refuse-Owned fd w w1 h1 g,
        refuse-Owned fd w w2 h2 g,
        refuse-Owned fd w w3 h3 g,
        h3.1 g,
      )

  server_loop-Owned : (v6 : Bool) (ps : List Info) (w : World) → Owned w (server_loop sys v6 ps w)
  unfolding server_loop
  server_loop-Owned v6 [] w g = refl
  server_loop-Owned v6 (p ∷ ps) w g = elim (Option-cases (sys.socket p w).0) [
    | inl refused ↦
        ground (
          arith,
          refused,
          d.socket_fails p w g refused,
          server_loop-Owned v6 ps (sys.socket p w).1 g,
        )
    | inr (fd, made) ↦
        ground
          (arith, made, bind_socket-Owned v6 fd p w (sys.socket p w).1 (d.socket_new p w fd made) g)
  ]

  -- `_netUdpServer` loses no descriptor either.
  pub net_udp_server-Owned :
      (v6 : Bool) (found : Option (List Info)) (w : World) → Owned w (net_udp_server sys v6 found w)
  unfolding net_udp_server
  net_udp_server-Owned v6 none w g = refl
  net_udp_server-Owned v6 (some found) w g = server_loop-Owned v6 found w g
