-- ===== src/Module/Udp/Late.antt =====
-- The header of the answers of src/app/server.c: src/lib/protocol/udp_shadowsocks.c keeps one for all
-- the clients of a server's socket.
use xsocks.Base.{ℕ, ◌≡◌, ◌∙◌, ap, Bool, List, ◌∷◌, ◌++◌, some, length, arith}
use xsocks.Net.{SysWrite}
use xsocks.Net.Resolve.{Info}
use xsocks.Tcp.Io.{net_iobuf_len}
use xsocks.Udp.{Received}
use xsocks.Udp.Shadowsocks.{UdpEnv, Datagrams, raw}
use xsocks.Module.Udp.{
  UdpServer, UdpClient, UdpConfig, freed, udp_remote_new, with_address, udp_remote_on_read,
}
use xsocks.Module.Udp.Answer.{without_one, on_read-encrypted}
use xsocks.Module.Udp.Server.{udp_server_on_read}
use xsocks.Module.Udp.Server.Delivery.{Arrives, on_read-Arrives, with_header, client_from}
use xsocks.Module.Udp.Server.Counters.{after_remote-conn}

module _ (env : UdpEnv) (config : UdpConfig) where
  open env use {os, encrypt_all}
  open os use {sys, recvfrom, sendto}
  open sys use {World, close}

  remote_new-conn :
      (client : UdpClient) (server : UdpServer) (secure : Bool) (host : List ℕ) (port : ℕ)
      (w : World)
      → (udp_remote_new env config client server secure host port w).1.conn ≡ server.conn
  unfolding udp_remote_new with_address
  remote_new-conn client server secure host port w = ground arith

  -- Whatever becomes of a datagram with a header, the server's socket has its header from then on.
  pub on_read-header :
      (server : UdpServer) (host : List ℕ) (port : ℕ) (addr payload : List ℕ) (from : Info)
      (w w' : World)
      → Arrives env config server host port addr payload from w w'
      → (udp_server_on_read env config server w).1.conn ≡ (with_header env config server addr).conn
  on_read-header server host port addr payload from w w' a =
      let server' = with_header env config server addr in
      let client = client_from env config from in
      let made_ = udp_remote_new env config client server' _ host port w' in
      ap (λ r. r.1.conn) (on_read-Arrives env config server host port addr payload from w w' a)
      ∙ after_remote-conn env config payload client made_
      ∙ remote_new-conn client server' _ host port w'

  -- The answer to a client carries the header of the last datagram that the server has read, whoever sent
  -- it. Where a datagram with the header `addr` has arrived, and then the answer `x ∷ xs` comes in on the
  -- remote of any other client, what that client is sent is `addr` and the answer, encrypted: not the
  -- address that the answer came from, nor the one that the client had asked for. (The kernel takes it.)
  pub late-answer :
      (server : UdpServer) (host : List ℕ) (port : ℕ) (addr payload : List ℕ) (from : Info)
      (w w' : World) (client : UdpClient) (remote : Datagrams) (text : List ℕ) (x : ℕ) (xs : List ℕ)
      (peer : Info) (u u1 u2 u3 : World)
      → Arrives env config server host port addr payload from w w'
      → remote.kind ≡ raw
      → recvfrom remote.base.fd net_iobuf_len u ≡ (Received.got (x ∷ xs) peer, u1)
      → encrypt_all (addr ++ (x ∷ xs)) u1 ≡ (some text, u2)
      → sendto (udp_server_on_read env config server w).1.conn.base.fd text client.sa_client u2
        ≡ (SysWrite.wrote (length text), u3)
      → udp_remote_on_read env config client remote (udp_server_on_read env config server w).1 u ≡ (
        freed,
        without_one env config (udp_server_on_read env config server w).1,
        close remote.base.fd u3,
      )
  late-answer server host port addr payload from w w' client remote text x xs peer u u1 u2 u3 a k
        got enc sent =
      on_read-encrypted env config client remote (udp_server_on_read env config server w).1 addr
        text x xs peer u u1 u2 u3 k
        (ap (λ c. c.kind) (on_read-header server host port addr payload from w w' a)) got enc sent
