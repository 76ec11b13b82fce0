-- ===== src/TcpShadowsocks/Request.antt =====
-- The first packet that a shadowsocks connection reads: the address, and what follows it.
use xsocks.Base.{ℕ, ◌<◌, ◌≡◌, refl, List, ◌∷◌, ◌++◌, some, length, arith}
use xsocks.Net.{Os, Input}
use xsocks.Socks5.{
  Inet, Addr, ok, addr_init, addr_parse, c_string, atyp_domain, host_parse, hostname_max_len,
}
use xsocks.Socks5.RoundTrip.{addr_parse-addr_init}
use xsocks.Tcp.{TcpConn}
use xsocks.Tcp.Io.{tcp_read}
use xsocks.TcpShadowsocks.{
  Crypto, Shadowsocks, init, handshake, plain, conn_read, conn_init, on_decrypted, on_plain,
  on_addr,
}

abbrev pub domain : List ℕ → ℕ → Addr
domain host port = record { atyp = atyp_domain; host = host; host_len = length host; port = port }

-- an encoded domain name is parsed, whatever follows
pub parse-encoded :
    (inet : Inet) (host : List ℕ) (port : ℕ) (addr rest : List ℕ)
    → host_parse host ≡ atyp_domain
    → length host < 256
    → port < 65536
    → addr_init inet host port ≡ some addr
    → addr_parse inet (addr ++ rest) hostname_max_len ≡ ok (length addr) (domain host port)
parse-encoded inet host port addr rest name small p16 enc =
    let (b, e, parsed) = addr_parse-addr_init inet host port rest hostname_max_len name small p16 in
    let same : b ≡ addr = ground arith in rw same at parsed

-- `tcpShadowsocksConnInit` stores the encoding of the host and port.
pub conn_init-encoded :
    (cr : Crypto) (inet : Inet) (s : Shadowsocks cr) (host : List ℕ) (port : ℕ) (addr : List ℕ)
    → addr_init inet host port ≡ some addr
    → conn_init cr inet s host port ≡ record s { addrbuf_dest = addr }
unfolding conn_init
conn_init-encoded cr inet s host port addr enc = rw (conn_init, enc) refl

module _ (cr : Crypto) (inet : Inet) (os : Os) where
  open cr use {decrypt}
  open os use {World}

  -- The first packet with an address that is a domain name: all its plain bytes are handed over, the
  -- address is stored, and the state becomes handshake.
  pub conn_read-first :
      (c : TcpConn) (s : Shadowsocks cr) (n : ℕ) (w : World) (x : ℕ) (xs : List ℕ)
      → (host : List ℕ) (port : ℕ) (addr payload : List ℕ) → s.state ≡ init
      → (tcp_read os c n w).0 ≡ Input.bytes (x ∷ xs)
      → (decrypt (x ∷ xs) s.d_ctx).0 ≡ plain (addr ++ payload)
      → host_parse host ≡ atyp_domain
      → c_string host ≡ host
      → length host < 256
      → port < 65536
      → addr_init inet host port ≡ some addr
      → conn_read cr inet os c s n w ≡ (
        Input.bytes (addr ++ payload),
        (tcp_read os c n w).1,
        record s { state = handshake; addrbuf_dest = addr; d_ctx = (decrypt (x ∷ xs) s.d_ctx).1 },
        (tcp_read os c n w).2,
      )
  unfolding conn_read conn_init on_decrypted on_plain on_addr
  conn_read-first c s n w x xs host port addr payload state got dec name str small p16 enc =
      rw
        (
          conn_read,
          got,
          state,
          dec,
          parse-encoded inet host port addr payload name small p16 enc,
          str,
          conn_init,
          enc,
        )
        refl
