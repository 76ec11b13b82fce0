-- ===== src/Udp/Shadowsocks.antt =====
-- src/lib/protocol/udp_shadowsocks.c and raw.c: datagrams of shadowsocks, each encrypted as a whole,
-- with an address in front of the payload. The ciphers of shadowsocks-libev are a parameter.
pub mod RoundTrip
use xsocks.Base.{ℕ, Bool, List, [], ◌++◌, Option, none, some, length, drop, if◌then◌else◌}
use xsocks.Base.Int.{ℤ, sub_ℕ}
use xsocks.Net.{Input, Output}
use xsocks.Net.Resolve.{Info}
use xsocks.Socks5.{
  Inet, Parsed, out_of_bounds, err, ok, c_string, addr_init, addr_parse, hostname_max_len,
}
use xsocks.TcpShadowsocks.{error_encrypt, error_decrypt, error_socks5}
use xsocks.Udp.{UdpOs, UdpConn, udp_give_up, udp_init, udp_close, udp_read, udp_write}

-- What the UDP relay takes from outside: the kernel, the address texts, and `encrypt_all` and
-- `decrypt_all` of `crypto_t`. They draw salts and remember them, so they have an effect too; none is
-- an error.
pub record UdpEnv : Type 1 where
  pub os : UdpOs
  pub inet : Inet
  pub encrypt_all : List ℕ → os.sys.World → Option (List ℕ) × os.sys.World
  pub decrypt_all : List ℕ → os.sys.World → Option (List ℕ) × os.sys.World

-- What stands behind the `udpConn`: nothing, or `addrbuf_dest`.
pub data UdpKind : Type 0 where
  raw : UdpKind
  shadowsocks : List ℕ → UdpKind

pub record Datagrams : Type 0 where
  pub base : UdpConn
  pub kind : UdpKind

-- the bytes of `addrbuf_dest`
abbrev pub addr_dest : UdpKind → List ℕ
addr_dest raw = []
addr_dest (shadowsocks addr) = addr

-- `udpConnNew` of src/app/module/module_udp.c, with `udpShadowsocksConnNew` and `udpRawConnNew`: does
-- the connection speak shadowsocks?
unfoldable pub udp_conn_of : Bool → UdpConn → Datagrams
unfolding udp_init
udp_conn_of secure c = record { base = udp_init c; kind = if secure then shadowsocks [] else raw }

module _ (env : UdpEnv) where
  open env use {os, inet, encrypt_all, decrypt_all}
  open os use {sys}
  open sys use {World}

  -- `udpShadowsocksConnInit`. (`socks5AddrCreate` fails only where inet_pton returns -1, which it does
  -- for other address families; the code would then copy an uninitialised number of bytes.)
  unfoldable pub udp_conn_init : Datagrams → List ℕ → ℕ → Datagrams
  udp_conn_init c host port = elim (addr_init inet host port) [
    | none ↦ c
    | some addr ↦ record c { kind = shadowsocks addr }
  ]

  abbrev Reading : Type 0
  Reading = Input × Datagrams

  refuse_datagram : ℕ → Datagrams → Reading
  refuse_datagram code c = (Input.fail, record c { base = udp_give_up code c.base })

  -- the plain bytes, and the address in front of them
  on_header : List ℕ → Datagrams → Parsed → Reading
  unfolding refuse_datagram udp_conn_init
  on_header bs c out_of_bounds = refuse_datagram error_socks5 c
  on_header bs c err = refuse_datagram error_socks5 c
  on_header bs c (ok n a) = (Input.bytes (drop n bs), udp_conn_init c (c_string a.host) a.port)

  on_datagram : Option (List ℕ) → Datagrams → Reading
  unfolding refuse_datagram on_header
  on_datagram none c = refuse_datagram error_decrypt c
  on_datagram (some bs) c = on_header bs c (addr_parse inet bs hostname_max_len)

  read_datagram : UdpKind → UdpConn → ℕ → World → Input × Option Info × Datagrams × World
  unfolding on_datagram
  read_datagram raw c n w =
      let (r, from, c', w') = udp_read os c n w in (r, from, record { base = c'; kind = raw }, w')
  read_datagram (shadowsocks addr) c n w =
      let (r, from, base, w') = udp_read os c n w in
      let c' : Datagrams = record { base = base; kind = shadowsocks addr } in
      elim r [
        | Input.fail ↦ (Input.fail, from, c', w')
        | Input.bytes bs ↦
            let (plain, w'') = decrypt_all bs w' in
            let (r', c'') = on_datagram plain c' in (r', from, c'', w'')
      ]

  -- UDP_READ of at most `n` bytes: `udpRead`, or `udpShadowsocksConnRead`
  unfoldable pub datagram_read : Datagrams → ℕ → World → Input × Option Info × Datagrams × World
  unfolding read_datagram
  datagram_read c n w = read_datagram c.kind c.base n w

  -- The number that `udpShadowsocksConnWrite` returns (none is UDP_ERR) is that of the cipher text, less
  -- the address.
  abbrev Writing : Type 0
  Writing = Option ℤ × Datagrams × World

  on_sent : Output → List ℕ → Datagrams → World → Writing
  on_sent Output.fail addr c w = (none, c, w)
  on_sent Output.crash addr c w = (none, c, w)
  on_sent (Output.count n) addr c w = (some (sub_ℕ n (length addr)), c, w)

  write_datagram : UdpKind → UdpConn → List ℕ → Option Info → World → Writing
  unfolding on_sent
  write_datagram raw c buf sa w =
      let (r, c', w') = udp_write os c buf sa w in
      on_sent r [] (record { base = c'; kind = raw }) w'
  write_datagram (shadowsocks addr) c buf sa w =
      let (text, w') = encrypt_all (addr ++ buf) w in
      elim text [
        | none ↦ (none, record { base = udp_give_up error_encrypt c; kind = shadowsocks addr }, w')
        | some bs ↦
            let (r, c', w'') = udp_write os c bs sa w' in
            on_sent r addr (record { base = c'; kind = shadowsocks addr }) w''
      ]

  -- UDP_WRITE: `udpWrite`, or `udpShadowsocksConnWrite`
  unfoldable pub datagram_write : Datagrams → List ℕ → Option Info → World → Writing
  unfolding write_datagram
  datagram_write c buf sa w = write_datagram c.kind c.base buf sa w

  -- CONN_CLOSE: `udpClose`, or `udpShadowsocksConnFree`
  unfoldable pub datagram_close : Datagrams → World → World
  unfolding udp_close
  datagram_close c w = udp_close os c.base w
