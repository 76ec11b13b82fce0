-- ===== src/Udp/Owned.antt =====
-- The socket that `udpCreate` of src/lib/protocol/udp.c makes: it loses no descriptor.
use xsocks.Base.{
  ℕ, Bool, true, false, List, Option, none, some, arith, Bool-cases, Option-cases, inl, inr,
}
use xsocks.Base.Int.{ℤ}
use xsocks.Socks5.{is_ipv6_addr}
use xsocks.Net.Sockets.Descriptors.{Descriptors, Owned, net_udp_server-Owned}
use xsocks.Udp.{UdpOs, UdpConn, udp_conn_new, bind_to, or_else, udp_socket, udp_create}

module _ (os : UdpOs) (d : Descriptors os.sys) where
  open os use {sys, getaddrinfo}
  open sys use {World}

  bind_to-Owned :
      (v6 : Bool) (host : Option (List ℕ)) (port : ℕ) (w : World)
      → Owned sys d w (bind_to os v6 host port w)
  unfolding bind_to
  bind_to-Owned v6 host port w = net_udp_server-Owned sys d v6 (getaddrinfo (some v6) host port w) w

  or_else-Owned :
      (r : Option ℕ × World) (next : World → Option ℕ × World) (w : World)
      → Owned sys d w r
      → ((u : World) → Owned sys d u (next u))
      → Owned sys d w (or_else os r next)
  or_else-Owned (some fd, u) next w h k g = h g
  or_else-Owned (none, u) next w h k g = ground (arith, h g, k u g)

  udp_socket-Owned :
      (host : Option (List ℕ)) (port : ℕ) (ipv6_first : Bool) (w : World)
      → Owned sys d w (udp_socket os host port ipv6_first w)
  unfolding udp_socket
  udp_socket-Owned (some host) port ipv6_first w = elim (Bool-cases (is_ipv6_addr host)) [
    | inl v6 ↦ rw (udp_socket, v6) (bind_to-Owned true (some host) port w)
    | inr v4 ↦ rw (udp_socket, v4) (bind_to-Owned false (some host) port w)
  ]
  udp_socket-Owned none port true w =
      or_else-Owned (bind_to os true none port w) (bind_to os false none port) w
        (bind_to-Owned true none port w) (bind_to-Owned false none port)
  udp_socket-Owned none port false w =
      or_else-Owned (bind_to os false none port w) (bind_to os true none port) w
        (bind_to-Owned false none port w) (bind_to-Owned true none port)

  abbrev pub fd_of : Option UdpConn → Option ℕ
  fd_of none = none
  fd_of (some c) = some c.fd

  -- `udpCreate` opens the descriptor of the connection that it returns, and no other.
  pub udp_create-Owned :
      (host : Option (List ℕ)) (port : ℕ) (ipv6_first : Bool) (timeout : ℤ) (w : World)
      → let (c, w') = udp_create os host port ipv6_first timeout w in Owned sys d w (fd_of c, w')
  unfolding udp_create udp_conn_new
  udp_create-Owned host port ipv6_first timeout w g =
      let owned = udp_socket-Owned host port ipv6_first w g in
      elim (Option-cases (udp_socket os host port ipv6_first w).0) [
        | inl lost ↦ ground (arith, lost, owned)
        | inr (fd, made) ↦ ground (arith, made, owned)
      ]
