-- ===== src/TcpShadowsocks.antt =====
-- src/lib/protocol/tcp_shadowsocks.c: an encrypted connection. The first packet from the client
-- carries the address of the destination. The ciphers of shadowsocks-libev are a parameter.
pub mod Cipher
pub mod Pending
pub mod Request
pub mod First
mod Tests
use xsocks.Base.{
  ℕ, zero, suc, ◌+◌, ◌-◌, Bool, true, false, not, ◌&&◌, ◌||◌, List, [], ◌∷◌, ◌++◌, Option, none,
  some, length, take, drop, ltb, ◌==◌, if◌then◌else◌,
}
use xsocks.Base.Int.{ℤ, pos, negsuc}
use xsocks.Net.{Os, Input, Output}
use xsocks.Socks5.{
  Inet, Parsed, c_string, out_of_bounds, err, ok, addr_init, addr_parse, hostname_max_len,
}
use xsocks.Tcp.{TcpConn, give_up, fire_error, fire_close}
use xsocks.Tcp.Io.{tcp_init, tcp_close, tcp_read, tcp_write}

-- What `crypto->decrypt` returns: CRYPTO_OK with the plain bytes (none, while it collects a nonce),
-- CRYPTO_NEED_MORE where a chunk is not complete, or CRYPTO_ERROR.
pub data Decrypted : Type 0 where
  plain : List ℕ → Decrypted
  need_more : Decrypted
  crypto_error : Decrypted

-- `crypto_t` and `cipher_ctx_t`: `encrypt` returns the cipher text, or fails; `ctx_init` is given
-- whether the context encrypts.
pub record Crypto : Type 1 where
  pub Ctx : Type 0
  pub ctx_init : Bool → Ctx
  pub encrypt : List ℕ → Ctx → Option (List ℕ) × Ctx
  pub decrypt : List ℕ → Ctx → Decrypted × Ctx

pub data State : Type 0 where
  init handshake stream : State

-- The part of `tcpShadowsocksConn` behind the `tcpConn`. `tmp_buf` are the bytes of the buffer of that
-- name (`tmp_buf->len` is their number): cipher text that is not all written, from `tmp_buf_off` on.
pub record Shadowsocks (cr : Crypto) : Type 0 where
  pub state : State
  pub tmp_buf : List ℕ
  pub tmp_buf_off : ℕ
  pub addrbuf_dest : List ℕ
  pub e_ctx : cr.Ctx
  pub d_ctx : cr.Ctx

abbrev pub error_encrypt : ℕ
error_encrypt = 10000

abbrev pub error_decrypt : ℕ
error_decrypt = 10001

abbrev pub error_socks5 : ℕ
error_socks5 = 10002

module _ (cr : Crypto) where
  open cr use {Ctx, ctx_init, encrypt, decrypt}

  -- `tcpShadowsocksConnNew`
  unfoldable pub conn_new : TcpConn → TcpConn × Shadowsocks cr
  conn_new c = (
    tcp_init c,
    record {
      state = init;
      tmp_buf = [];
      tmp_buf_off = 0;
      addrbuf_dest = [];
      e_ctx = ctx_init true;
      d_ctx = ctx_init false;
    },
  )

  abbrev pub Reading : Type 0
  Reading = Input × TcpConn × Shadowsocks cr

  abbrev pub Writing : Type 0
  Writing = Output × TcpConn × Shadowsocks cr

  -- the change of state at the head of `tcpShadowsocksConnRead`
  abbrev pub read_state : State → State
  read_state init = init
  read_state handshake = stream
  read_state stream = stream

module _ (cr : Crypto) (inet : Inet) where
  open cr use {Ctx, encrypt, decrypt}

  -- `tcpShadowsocksConnInit`. (`socks5AddrInit` fails only where inet_pton returns -1, which it does
  -- for other address families; the code would then copy an uninitialised number of bytes.)
  pub conn_init : Shadowsocks cr → List ℕ → ℕ → Shadowsocks cr
  conn_init s host port = elim (addr_init inet host port) [
    | none ↦ s
    | some addr ↦ record s { addrbuf_dest = addr }
  ]

  -- the address in the first packet; a lone type byte of a domain name is refused too
  on_addr : List ℕ → TcpConn → Shadowsocks cr → Parsed → Reading cr
  unfolding conn_init
  on_addr bs c s out_of_bounds = (Input.fail, give_up error_socks5 c, s)
  on_addr bs c s err = (Input.fail, give_up error_socks5 c, s)
  on_addr bs c s (ok n a) =
      (Input.bytes bs, c, record (conn_init s (c_string a.host) a.port) { state = handshake })

  on_plain : List ℕ → TcpConn → Shadowsocks cr → State → Reading cr
  unfolding on_addr
  on_plain bs c s init = on_addr bs c s (addr_parse inet bs hostname_max_len)
  on_plain bs c s handshake = (Input.bytes bs, c, s)
  on_plain bs c s stream = (Input.bytes bs, c, s)

  -- Any result of `decrypt` but CRYPTO_OK is an error.
  on_decrypted : Decrypted → TcpConn → Shadowsocks cr → Reading cr
  unfolding on_plain
  on_decrypted (plain bs) c s = on_plain bs c s s.state
  on_decrypted need_more c s = (Input.fail, give_up error_decrypt c, s)
  on_decrypted crypto_error c s = (Input.fail, give_up error_decrypt c, s)

  module _ (os : Os) where
    open os use {World}

    -- `tcpShadowsocksConnRead`
    unfoldable pub conn_read :
        TcpConn → Shadowsocks cr → ℕ → World → Input × TcpConn × Shadowsocks cr × World
    unfolding on_decrypted
    conn_read c s buf_len w =
        let s' = record s { state = read_state cr s.state } in
        let (r, c', w') = tcp_read os c buf_len w in
        elim r [
          | Input.fail ↦ (Input.fail, c', s', w')
          | Input.bytes [] ↦ (Input.bytes [], c', s', w')
          | Input.bytes (b ∷ bs) ↦
              let (d, ctx) = decrypt (b ∷ bs) s'.d_ctx in
              let (r', c'', s'') = on_decrypted d c' (record s' { d_ctx = ctx }) in
              (r', c'', s'', w')
        ]

module _ (cr : Crypto) (os : Os) where
  open cr use {Ctx, encrypt, decrypt}
  open os use {World}

  abbrev Sent : Type 0
  Sent = Output × TcpConn × Shadowsocks cr × World

  -- after `tcpWrite` of what is left of `tmp_buf`
  on_written : Output → TcpConn → Shadowsocks cr → World → Sent
  on_written Output.fail c s w = (Output.fail, c, s, w)
  on_written Output.crash c s w = (Output.crash, c, s, w)
  on_written (Output.count n) c s w =
      let left = length s.tmp_buf - s.tmp_buf_off in
      if n == left
      then (Output.count n, c, record s { tmp_buf = []; tmp_buf_off = 0 }, w)
      else if ltb 0 n && ltb n left
      then (Output.count n, c, record s { tmp_buf_off = s.tmp_buf_off + n }, w)
      else (Output.count n, c, s, w)

  pub write_pending : TcpConn → Shadowsocks cr → World → Sent
  unfolding on_written
  write_pending c s w =
      let (r, c', w') = tcp_write os c (drop s.tmp_buf_off s.tmp_buf) w in on_written r c' s w'

  -- the bytes of the caller are encrypted into the empty `tmp_buf`
  encrypt_plain : TcpConn → Shadowsocks cr → List ℕ → World → Sent
  unfolding write_pending
  encrypt_plain c s buf w =
      let (o, ctx) = encrypt buf s.e_ctx in
      elim o [
        | none ↦ (Output.fail, give_up error_encrypt c, record s { tmp_buf = buf; e_ctx = ctx }, w)
        | some text ↦ write_pending c (record s { tmp_buf = text; e_ctx = ctx }) w
      ]

  -- The part of `tcpShadowsocksConnWrite` for the data. `len` bytes are copied from a pointer at
  -- `mem`: a negative number is a huge `size_t`. While cipher text is left, `mem` is not looked at.
  pub write_data : TcpConn → Shadowsocks cr → List ℕ → ℤ → World → Sent
  unfolding encrypt_plain
  write_data c s mem (negsuc n) w =
      if length s.tmp_buf == 0 then (Output.crash, c, s, w) else write_pending c s w
  write_data c s mem (pos n) w =
      if length s.tmp_buf == 0 then encrypt_plain c s (take n mem) w else write_pending c s w

  -- after `tcpWrite` of the encrypted address
  on_address : Output → TcpConn → Shadowsocks cr → List ℕ → ℤ → World → Sent
  unfolding write_data fire_error fire_close
  on_address Output.fail c s mem len w = (Output.fail, c, s, w)
  on_address Output.crash c s mem len w = (Output.crash, c, s, w)
  on_address (Output.count n) c s mem len w =
      if n == length s.addrbuf_dest
      then write_data c (record s { state = handshake }) mem len w
      else (Output.fail, fire_close (fire_error c), s, w)

  write_in : State → TcpConn → Shadowsocks cr → List ℕ → ℤ → World → Sent
  unfolding on_address
  write_in init c s mem len w =
      let (o, ctx) = encrypt s.addrbuf_dest s.e_ctx in
      elim o [
        | none ↦ (Output.fail, give_up error_encrypt c, record s { e_ctx = ctx }, w)
        | some text ↦
            let (r, c', w') = tcp_write os c text w in
            on_address r c' (record s { addrbuf_dest = text; e_ctx = ctx }) mem len w'
      ]
  write_in handshake c s mem len w = write_data c (record s { state = stream }) mem len w
  write_in stream c s mem len w = write_data c s mem len w

  -- `tcpShadowsocksConnWrite` of `len` bytes from a pointer at `mem`
  unfoldable pub conn_write : TcpConn → Shadowsocks cr → List ℕ → ℤ → World → Sent
  unfolding write_in
  conn_write c s mem len w = write_in s.state c s mem len w

  -- `tcpShadowsocksConnFree`
  unfoldable pub conn_free : TcpConn → World → TcpConn × World
  conn_free c w = tcp_close os c w
