-- ===== src/Module/Udp/EndToEnd.antt =====
-- The tunnel (src/app/tunnel.c) and the server (src/app/server.c) together: a datagram and its answer.
-- Each program has a kernel of its own; the two share the ciphers.
use xsocks.Base.{ℕ, ◌≡◌, ap, List, ◌∷◌, ◌++◌, some, length, arith}
use xsocks.Net.{SysWrite}
use xsocks.Net.Resolve.{Info}
use xsocks.Tcp.Io.{net_iobuf_len}
use xsocks.Udp.{Received}
use xsocks.Udp.Shadowsocks.{UdpEnv, raw, shadowsocks}
use xsocks.Udp.Shadowsocks.RoundTrip.{Header, Inverse}
use xsocks.Module.Udp.{UdpServer, UdpConfig}
use xsocks.Module.Udp.Remote.{Resolves}
use xsocks.Module.Udp.Server.{udp_server_on_read}
use xsocks.Module.Udp.Server.Delivery.{Arrives, udp_server_on_read-delivers}
use xsocks.Module.Udp.Tunnel.{Ends, tunnel_on_read}
use xsocks.Module.Udp.Tunnel.Delivery.{tunnel_on_read-encrypted}

module _ (env : UdpEnv) (inv : Inverse env) (near far : UdpConfig) (ends : Ends) where
  open env use {os, inet, encrypt_all, decrypt_all}
  open os use {sys, recvfrom, sendto}
  open sys use {World, close}

  -- What the tunnel program does with a datagram `x ∷ xs` from `from`: it sends `y ∷ ys`, from the socket
  -- `fd`, to the server's address `to`. `w`, `w1` … `w4` are its kernel.
  pub record Sends (tunnel : UdpServer) (x : ℕ) (xs addr : List ℕ) (y : ℕ) (ys : List ℕ)
      (from to : Info) (fd : ℕ) (w w4 : World) : Type 0 where
    pub plain : tunnel.conn.kind ≡ raw
    pub w1 : World
    pub w2 : World
    pub w3 : World
    pub got : recvfrom tunnel.conn.base.fd net_iobuf_len w ≡ (Received.got (x ∷ xs) from, w1)
    pub server : Resolves env near ends.remote_addr ends.remote_port fd to w1 w2
    pub header : Header env ends.tunnel_addr ends.tunnel_port addr
    pub encrypted : encrypt_all (addr ++ (x ∷ xs)) w2 ≡ (some (y ∷ ys), w3)
    pub sent : sendto fd (y ∷ ys) (some to) w3 ≡ (SysWrite.wrote (length (y ∷ ys)), w4)

  -- A datagram that is sent into the tunnel comes out at its end. The tunnel program sends one datagram
  -- of cipher text for it (`Sends`); where the server program receives just that text, which it has not
  -- seen before, can make a socket, finds the address of the tunnel's end, and its kernel takes the
  -- payload, the server sends exactly the datagram of the client to exactly that address. (Decrypting
  -- undoes encrypting.)
  pub tunnel-server :
      (tunnel server : UdpServer) (x : ℕ) (xs addr : List ℕ) (y : ℕ) (ys : List ℕ)
      (from to via end : Info) (fd fd' : ℕ) (old : List ℕ) (w w4 u u1 u2 u3 : World)
      → Sends tunnel x xs addr y ys from to fd w w4
      → server.conn.kind ≡ shadowsocks old
      → recvfrom server.conn.base.fd net_iobuf_len u ≡ (Received.got (y ∷ ys) via, u1)
      → inv.Fresh (y ∷ ys) u1
      → Resolves env far ends.tunnel_addr ends.tunnel_port fd' end (decrypt_all (y ∷ ys) u1).1 u2
      → sendto fd' (x ∷ xs) (some end) u2 ≡ (SysWrite.wrote (length (x ∷ xs)), u3)
      → ((tunnel_on_read env near ends tunnel w).2 ≡ w4)
        × ((udp_server_on_read env far server u).2 ≡ u3)
  tunnel-server tunnel server x xs addr y ys from to via end fd fd' old w w4 u u1 u2 u3 s k got new
        r sent =
      let near_end =
        tunnel_on_read-encrypted env near ends tunnel x xs addr (y ∷ ys) from to fd w s.w1 s.w2 s.w3
          w4 s.plain s.got s.server s.header s.encrypted s.sent in
      let opened =
        inv.decrypt-encrypt (addr ++ (x ∷ xs)) (y ∷ ys) s.w2 u1 (ap (λ t. t.0) s.encrypted) new in
      let arrives : Arrives env far server ends.tunnel_addr ends.tunnel_port addr (x ∷ xs) via u
          (decrypt_all (y ∷ ys) u1).1 =
        record {
          old = old;
          secure = k;
          first = y;
          rest = ys;
          received = u1;
          got = got;
          decrypted = ground (arith, opened);
          header = s.header;
        } in
      let far_end =
        udp_server_on_read-delivers env far server ends.tunnel_addr ends.tunnel_port addr (x ∷ xs)
          via end fd' u (decrypt_all (y ∷ ys) u1).1 u2 u3 arrives r sent in
      (ap (λ t. t.2) near_end, ap (λ t. t.2) far_end)
