-- ===== src/Module/Udp/Answer.antt =====
-- `udpRemoteOnRead` of src/app/module/module_udp.c: the answer to a client's datagram.
use xsocks.Base.{ℕ, ◌≡◌, List, ◌∷◌, ◌++◌, some, length, arith, ap}
use xsocks.Net.{SysWrite}
use xsocks.Net.Resolve.{Info}
use xsocks.Tcp.Io.{net_iobuf_len}
use xsocks.Udp.{Received, udp_close}
use xsocks.Udp.Send.{udp_add_time-fd}
use xsocks.Udp.Shadowsocks.{UdpEnv, Datagrams, raw, shadowsocks, datagram_close}
use xsocks.Udp.Shadowsocks.RoundTrip.{
  Header, datagram_read-raw, datagram_read-Header, datagram_write-raw, datagram_write-shadowsocks,
}
use xsocks.Module.{decrement}
use xsocks.Module.Udp.{
  UdpServer, UdpClient, UdpConfig, freed, udp_remote_on_read, answer, free_client,
  udp_connection_free, remote_free,
}

module _ (env : UdpEnv) (config : UdpConfig) where
  open env use {os, inet, encrypt_all, decrypt_all}
  open os use {sys, recvfrom, sendto}
  open sys use {World, close}

  abbrev pub without_one : UdpServer → UdpServer
  without_one server = record server { remote_count = decrement server.remote_count }

  -- The answer to a client of the server program goes to that client, encrypted, behind the header that
  -- the server's socket has by then; the client and its remote are freed, and the counter says so.
  pub on_read-encrypted :
      (client : UdpClient) (remote : Datagrams) (server : UdpServer) (addr text : List ℕ) (x : ℕ)
      (xs : List ℕ) (from : Info) (w w1 w2 w3 : World)
      → remote.kind ≡ raw
      → server.conn.kind ≡ shadowsocks addr
      → recvfrom remote.base.fd net_iobuf_len w ≡ (Received.got (x ∷ xs) from, w1)
      → encrypt_all (addr ++ (x ∷ xs)) w1 ≡ (some text, w2)
      → sendto server.conn.base.fd text client.sa_client w2 ≡ (SysWrite.wrote (length text), w3)
      → udp_remote_on_read env config client remote server w
        ≡ (freed, without_one server, close remote.base.fd w3)
  unfolding udp_remote_on_read answer free_client udp_connection_free remote_free datagram_close
      udp_close
  on_read-encrypted client remote server addr text x xs from w w1 w2 w3 k ks got enc sent = ground (
    arith,
    udp_add_time-fd remote.base,
    datagram_read-raw env remote net_iobuf_len x xs from w w1 k got,
    datagram_write-shadowsocks env server.conn (x ∷ xs) text addr client.sa_client w1 w2 w3 ks enc
        sent,
  )

  -- The answer to a client of the tunnel program goes to that client, decrypted and without its header.
  pub on_read-plain :
      (client : UdpClient) (remote : Datagrams) (server : UdpServer) (old addr payload : List ℕ)
      (host : List ℕ) (port x : ℕ) (xs : List ℕ) (from : Info) (w w1 w2 w3 : World)
      → remote.kind ≡ shadowsocks old
      → server.conn.kind ≡ raw
      → recvfrom remote.base.fd net_iobuf_len w ≡ (Received.got (x ∷ xs) from, w1)
      → decrypt_all (x ∷ xs) w1 ≡ (some (addr ++ payload), w2)
      → Header env host port addr
      → sendto server.conn.base.fd payload client.sa_client w2
        ≡ (SysWrite.wrote (length payload), w3)
      → udp_remote_on_read env config client remote server w
        ≡ (freed, without_one server, close remote.base.fd w3)
  unfolding udp_remote_on_read answer free_client udp_connection_free remote_free datagram_close
      udp_close
  on_read-plain client remote server old addr payload host port x xs from w w1 w2 w3 k ks got dec h
        sent =
      ground (
        arith,
        udp_add_time-fd remote.base,
        datagram_read-Header env remote old net_iobuf_len w w1 x xs from host port addr payload k
            got (ap (λ r. r.0) dec) h,
        dec,
        datagram_write-raw env server.conn payload client.sa_client w2 w3 ks sent,
      )
