-- ===== src/Udp/Shadowsocks/RoundTrip.antt =====
-- A datagram that one shadowsocks socket (src/lib/protocol/udp_shadowsocks.c) sends and another reads.
use xsocks.Base.{
  ℕ, ◌<◌, ◌≡◌, refl, List, ◌∷◌, ◌++◌, Option, some, length, drop-length_append, arith, ap,
}
use xsocks.Net.{Input, SysWrite}
use xsocks.Udp.Send.{udp_write-sent}
use xsocks.Net.Resolve.{Info}
use xsocks.Socks5.{addr_init, c_string, host_parse, atyp_domain}
use xsocks.TcpShadowsocks.Request.{parse-encoded}
use xsocks.Udp.{Received, UdpConn, udp_read, udp_write, net_udp_read, udp_add_time, udp_del_time}
use xsocks.Udp.Shadowsocks.{
  UdpEnv, Datagrams, raw, shadowsocks, datagram_read, datagram_write, read_datagram, write_datagram,
  on_datagram, on_header, udp_conn_init, on_sent,
}

module _ (env : UdpEnv) where
  open env use {os, inet, encrypt_all, decrypt_all}
  open os use {sys, recvfrom, sendto}
  open sys use {World}

  -- What the protocol relies on of the ciphers: a text that was encrypted is decrypted again by whoever
  -- has not seen it before (texts that come twice are refused as replays).
  pub record Inverse : Type 1 where
    pub Fresh : List ℕ → World → Type 0
    pub decrypt-encrypt :
        (bs text : List ℕ) (w u : World)
        → (encrypt_all bs w).0 ≡ some text
        → Fresh text u
        → (decrypt_all text u).0 ≡ some bs

  -- a name and a port that the header of a datagram can carry, and that header
  pub record Header (host : List ℕ) (port : ℕ) (addr : List ℕ) : Type 0 where
    pub name : host_parse host ≡ atyp_domain
    pub str : c_string host ≡ host
    pub small : length host < 256
    pub p16 : port < 65536
    pub encoded : addr_init inet host port ≡ some addr

  -- `udpShadowsocksConnInit` stores the header.
  pub udp_conn_init-Header :
      (c : Datagrams) (host : List ℕ) (port : ℕ) (addr : List ℕ)
      → Header host port addr
      → udp_conn_init env c host port ≡ record c { kind = shadowsocks addr }
  unfolding udp_conn_init
  udp_conn_init-Header c host port addr h = rw (udp_conn_init, h.encoded) refl

  -- the plain bytes of a datagram with a header are taken apart
  on_datagram-Header :
      (c : Datagrams) (host : List ℕ) (port : ℕ) (addr payload : List ℕ)
      → Header host port addr
      → on_datagram env (some (addr ++ payload)) c
        ≡ (Input.bytes payload, record c { kind = shadowsocks addr })
  unfolding on_datagram on_header
  on_datagram-Header c host port addr payload h =
      rw
        (
          on_datagram,
          parse-encoded inet host port addr payload h.name h.small h.p16 h.encoded,
          drop-length_append addr payload,
          h.str,
          udp_conn_init-Header c host port addr h,
        )
        refl

  net_udp_read-got :
      (fd n : ℕ) (bs : List ℕ) (from : Info) (w w' : World)
      → recvfrom fd n w ≡ (Received.got bs from, w')
      → net_udp_read os fd n w ≡ (Input.bytes bs, some from, w')
  unfolding net_udp_read
  net_udp_read-got fd n bs from w w' e = ground (arith, e)

  -- `udpRead` of a datagram that is not empty
  pub udp_read-got :
      (c : UdpConn) (n : ℕ) (x : ℕ) (xs : List ℕ) (from : Info) (w w' : World)
      → recvfrom c.fd n w ≡ (Received.got (x ∷ xs) from, w')
      → udp_read os c n w ≡ (Input.bytes (x ∷ xs), some from, udp_add_time (udp_del_time c), w')
  unfolding udp_read
  udp_read-got c n x xs from w w' e = ground (arith, net_udp_read-got c.fd n (x ∷ xs) from w w' e)

  -- `udpShadowsocksConnRead` of a datagram whose plain text is a header and a payload
  pub datagram_read-Header :
      (c : Datagrams) (old : List ℕ) (n : ℕ) (w w' : World) (x : ℕ) (xs : List ℕ) (from : Info)
      (host : List ℕ) (port : ℕ) (addr payload : List ℕ)
      → c.kind ≡ shadowsocks old
      → recvfrom c.base.fd n w ≡ (Received.got (x ∷ xs) from, w')
      → (decrypt_all (x ∷ xs) w').0 ≡ some (addr ++ payload)
      → Header host port addr
      → datagram_read env c n w ≡ (
        Input.bytes payload,
        some from,
        record { base = udp_add_time (udp_del_time c.base); kind = shadowsocks addr },
        (decrypt_all (x ∷ xs) w').1,
      )
  unfolding datagram_read read_datagram
  datagram_read-Header c old n w w' x xs from host port addr payload k got dec h = ground (
    arith,
    k,
    udp_read-got c.base n x xs from w w' got,
    dec,
    on_datagram-Header
        (record { base = udp_add_time (udp_del_time c.base); kind = shadowsocks old }) host port
        addr payload h,
  )

  -- `udpRead` of a raw socket
  pub datagram_read-raw :
      (c : Datagrams) (n x : ℕ) (xs : List ℕ) (from : Info) (w w' : World)
      → c.kind ≡ raw
      → recvfrom c.base.fd n w ≡ (Received.got (x ∷ xs) from, w')
      → datagram_read env c n w ≡ (
        Input.bytes (x ∷ xs),
        some from,
        record { base = udp_add_time (udp_del_time c.base); kind = raw },
        w',
      )
  unfolding datagram_read read_datagram
  datagram_read-raw c n x xs from w w' k got =
      ground (arith, k, udp_read-got c.base n x xs from w w' got)

  -- `udpWrite` of a raw socket, and `udpShadowsocksConnWrite`, where the kernel takes the whole datagram
  pub datagram_write-raw :
      (c : Datagrams) (buf : List ℕ) (sa : Option Info) (w w' : World)
      → c.kind ≡ raw
      → sendto c.base.fd buf sa w ≡ (SysWrite.wrote (length buf), w')
      → ((datagram_write env c buf sa w).1 ≡ c) × ((datagram_write env c buf sa w).2 ≡ w')
  unfolding datagram_write write_datagram on_sent
  datagram_write-raw c buf sa w w' k sent =
      ground (arith, k, udp_write-sent os c.base buf sa w w' sent)

  pub datagram_write-shadowsocks :
      (c : Datagrams) (buf text addr : List ℕ) (sa : Option Info) (w w' w'' : World)
      → c.kind ≡ shadowsocks addr
      → encrypt_all (addr ++ buf) w ≡ (some text, w')
      → sendto c.base.fd text sa w' ≡ (SysWrite.wrote (length text), w'')
      → ((datagram_write env c buf sa w).1 ≡ c) × ((datagram_write env c buf sa w).2 ≡ w'')
  unfolding datagram_write write_datagram on_sent
  datagram_write-shadowsocks c buf text addr sa w w' w'' k enc sent =
      ground (arith, k, enc, udp_write-sent os c.base text sa w' w'' sent)

  -- What one shadowsocks socket sends, another reads. Where a socket that has the header of a name and a
  -- port encrypts the datagram `header ++ payload` to `text`, it sends `text` and nothing else; a socket
  -- that receives `text`, which it has not seen before and which is not empty, hands over exactly the
  -- payload, and stores the header, so that it is the header of its answers. (Decrypting undoes
  -- encrypting.)
  pub datagram_read-datagram_write :
      (inv : Inverse) (s c : Datagrams) (old addr payload : List ℕ) (host : List ℕ) (port : ℕ)
      (x : ℕ) (xs : List ℕ) (to : Option Info) (from : Info) (n : ℕ) (w u u' : World)
      → Header host port addr
      → s.kind ≡ shadowsocks addr
      → c.kind ≡ shadowsocks old
      → (encrypt_all (addr ++ payload) w).0 ≡ some (x ∷ xs)
      → recvfrom c.base.fd n u ≡ (Received.got (x ∷ xs) from, u')
      → inv.Fresh (x ∷ xs) u'
      → ((datagram_write env s payload to w).2
          ≡ (udp_write os s.base (x ∷ xs) to (encrypt_all (addr ++ payload) w).1).2)
        × ((datagram_read env c n u).0 ≡ Input.bytes payload)
        × ((datagram_read env c n u).2.kind ≡ shadowsocks addr)
  unfolding datagram_write write_datagram
  datagram_read-datagram_write inv s c old addr payload host port x xs to from n w u u' h ks kc enc
        got new =
      let dec = inv.decrypt-encrypt (addr ++ payload) (x ∷ xs) w u' enc new in
      let e = datagram_read-Header c old n u u' x xs from host port addr payload kc got dec h in
      (ground (arith, ks, enc), ap (λ r. r.0) e, ap (λ r. r.2.kind) e)
