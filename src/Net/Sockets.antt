-- ===== src/Net/Sockets.antt =====
-- src/lib/core/net.c: making the sockets. `netTcpNonBlockConnect` (`net_tcp_non_block_connect`) and
-- `_netUdpServer` (`net_udp_server`) try the results of getaddrinfo in turn.
pub mod Descriptors
pub mod Table
use xsocks.Base.{
  ℕ, Bool, true, false, not, ◌&&◌, List, [], ◌∷◌, Option, none, some, ◌==◌, if◌then◌else◌,
}
use xsocks.Net.{einprogress}
use xsocks.Net.Resolve.{Info}

-- The system calls. `reuse_addr`, `non_block`, `v6_only` and `bind` say whether they succeed;
-- `connect` returns `errno` where it does not.
pub record Sockets : Type 1 where
  pub World : Type 0
  pub socket : Info → World → Option ℕ × World
  pub reuse_addr : ℕ → World → Bool × World
  pub non_block : ℕ → World → Bool × World
  pub v6_only : ℕ → World → Bool × World
  pub bind : ℕ → Info → World → Bool × World
  pub connect : ℕ → Info → World → Option ℕ × World
  pub close : ℕ → World → World

module _ (sys : Sockets) where
  open sys use {World, socket, reuse_addr, non_block, v6_only, bind, connect, close}

  -- `goto error` with an open socket
  abbrev pub refuse : ℕ → World → Option ℕ × World
  refuse fd w = (none, close fd w)

  -- a round of the loop of `netTcpNonBlockConnect` from connect(2) on: `next` is what the rounds after
  -- it give
  connect_or : (World → Option ℕ × World) → ℕ → Info → World → Option ℕ × World
  connect_or next fd p w =
      let (r, w') = connect fd p w in
      elim r [
        | none ↦ (some fd, w')
        | some errno ↦ if errno == einprogress then (some fd, w') else next (close fd w')
      ]

  -- a round behind socket(2)
  configure_or : (World → Option ℕ × World) → ℕ → Info → World → Option ℕ × World
  unfolding connect_or
  configure_or next fd p w =
      let (reused, w1) = reuse_addr fd w in
      let (unblocked, w2) = non_block fd w1 in
      if not reused
      then refuse fd w1
      else if not unblocked
      then refuse fd w2
      else connect_or next fd p w2

  -- the loop
  pub connect_loop : List Info → World → Option ℕ × World
  unfolding configure_or
  connect_loop [] w = (none, w)
  connect_loop (p ∷ ps) w =
      let (s, w') = socket p w in
      elim s [ none ↦ connect_loop ps w' | some fd ↦ configure_or (connect_loop ps) fd p w' ]

  -- `netTcpNonBlockConnect`, where `found` is what getaddrinfo finds, if it does not fail.
  pub net_tcp_non_block_connect : Option (List Info) → World → Option ℕ × World
  unfolding connect_loop
  net_tcp_non_block_connect none w = (none, w)
  net_tcp_non_block_connect (some found) w = connect_loop found w

  -- a round of the loop of `_netUdpServer` behind socket(2), which is the last one
  unfoldable pub bind_socket : Bool → ℕ → Info → World → Option ℕ × World
  bind_socket v6 fd p w =
      let (only, w1) = if v6 then v6_only fd w else (true, w) in
      let (reused, w2) = reuse_addr fd w1 in
      let (bound, w3) = bind fd p w2 in
      if not only
      then refuse fd w1
      else if not reused
      then refuse fd w2
      else if not bound
      then refuse fd w3
      else (some fd, w3)

  -- the loop
  unfoldable pub server_loop : Bool → List Info → World → Option ℕ × World
  unfolding bind_socket
  server_loop v6 [] w = (none, w)
  server_loop v6 (p ∷ ps) w =
      let (s, w') = socket p w in
      elim s [ none ↦ server_loop v6 ps w' | some fd ↦ bind_socket v6 fd p w' ]

  -- `_netUdpServer` for AF_INET6 (`true`) or AF_INET
  unfoldable pub net_udp_server : Bool → Option (List Info) → World → Option ℕ × World
  unfolding server_loop
  net_udp_server v6 none w = (none, w)
  net_udp_server v6 (some found) w = server_loop v6 found w
