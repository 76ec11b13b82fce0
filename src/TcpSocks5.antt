-- ===== src/TcpSocks5.antt =====
-- src/lib/protocol/tcp_socks5.c: the server side of a SOCKS5 connection.
pub mod Auth
pub mod Replies
pub mod Session
mod Tests
use xsocks.Base.{
  ℕ, suc, ◌+◌, ◌-◌, Bool, true, false, not, ◌&&◌, ◌||◌, List, [], ◌∷◌, ◌++◌, Option, none, some,
  length, get_or, zero, drop, ltb, ◌==◌, if◌then◌else◌,
}
use xsocks.Base.Int.{ℤ}
use xsocks.Net.{Os, Input, Output}
use xsocks.Socks5.{
  Inet, Parsed, c_string, out_of_bounds, err, ok, addr_init, addr_parse, hostname_max_len,
}
use xsocks.Tcp.{TcpConn, give_up, fire_error, fire_close}
use xsocks.Tcp.Io.{tcp_init, tcp_close, tcp_read, tcp_write, slice}

pub data State : Type 0 where
  init handshake stream : State

-- The part of `tcpSocks5Conn` behind the `tcpConn`. `is_client` is SOCKS5_FLAG_CLIENT; `addrbuf_dest`
-- is NULL until the request is read.
pub record Socks5 : Type 0 where
  pub is_client : Bool
  pub state : State
  pub addrbuf_dest : Option (List ℕ)

abbrev pub error_not_supported : ℕ
error_not_supported = 10000

abbrev pub error_auth : ℕ
error_auth = 10001

abbrev pub error_handshake : ℕ
error_handshake = 10002

-- SVERSION
abbrev pub version : ℕ
version = 5

-- METHOD_NOAUTH
abbrev pub method_noauth : ℕ
method_noauth = 0

-- SOCKS5_CMD_CONNECT
abbrev pub cmd_connect : ℕ
cmd_connect = 1

-- `tcpSocks5ConnNew`
unfoldable pub conn_new : TcpConn → TcpConn × Socks5
conn_new c = (tcp_init c, record { is_client = false; state = init; addrbuf_dest = none })

-- The loop over `auth_req->methods`: is METHOD_NOAUTH among the first `nmethods`?
pub offers_noauth : ℕ → List ℕ → Bool
offers_noauth zero methods = false
offers_noauth (suc n) [] = false
offers_noauth (suc n) (m ∷ ms) = m == method_noauth || offers_noauth n ms

-- The checks of the method request. (Behind the bytes that were read, a field is whatever the buffer
-- holds; then `nread` is below 2 and the request is refused for any value of it.)
pub auth_accepts : List ℕ → Bool
auth_accepts buf =
    let nmethods = get_or buf 1 0 in
    not (ltb (length buf) (2 + nmethods) || not (get_or buf 0 0 == version))
    && offers_noauth nmethods (drop 2 buf)

abbrev pub Reading : Type 0
Reading = Input × TcpConn × Socks5

abbrev pub Writing : Type 0
Writing = Output × TcpConn × Socks5

module _ (inet : Inet) where
  -- The checks of the request, and `socks5AddrParse` from its type byte on.
  pub request_parse : List ℕ → Parsed
  request_parse buf =
      if ltb (length buf) 4 || not (get_or buf 0 0 == version)
      then err
      else if not (get_or buf 1 0 == cmd_connect)
      then err
      else addr_parse inet (drop 3 buf) hostname_max_len

  -- `tcpSocks5ConnInit`
  pub conn_init : Socks5 → List ℕ → ℕ → Socks5
  conn_init s host port = record s { addrbuf_dest = addr_init inet host port }

  -- What `tcpSocks5ConnRead` makes of a request. A lone type byte of a domain name is refused too: the
  -- byte behind it, whatever it is, makes the address longer than the buffer.
  on_request : List ℕ → TcpConn → Socks5 → Parsed → Reading
  unfolding conn_init
  on_request buf c s out_of_bounds = (Input.fail, give_up error_handshake c, s)
  on_request buf c s err = (Input.fail, give_up error_handshake c, s)
  on_request buf c s (ok n a) = (Input.bytes buf, c, conn_init s (c_string a.host) a.port)

  -- what `tcpSocks5ConnRead` makes of the bytes that it read, in each state
  on_bytes : List ℕ → TcpConn → Socks5 → State → Reading
  unfolding on_request
  on_bytes buf c s init =
      if auth_accepts buf then (Input.bytes buf, c, s) else (Input.fail, give_up error_auth c, s)
  on_bytes buf c s handshake = on_request buf c s (request_parse buf)
  on_bytes buf c s stream = (Input.bytes buf, c, s)

  module _ (os : Os) where
    open os use {World}

    -- `tcpSocks5ConnRead`
    unfoldable pub conn_read : TcpConn → Socks5 → ℕ → World → Input × TcpConn × Socks5 × World
    unfolding on_bytes
    conn_read c s buf_len w =
        if s.is_client
        then (Input.fail, give_up error_not_supported c, s, w)
        else let (r, c', w') = tcp_read os c buf_len w in
          elim r [
            | Input.fail ↦ (Input.fail, c', s, w')
            | Input.bytes [] ↦ (Input.bytes [], c', s, w')
            | Input.bytes (b ∷ bs) ↦
                let (r', c'', s') = on_bytes (b ∷ bs) c' s s.state in (r', c'', s', w')
          ]

-- `{SVERSION, METHOD_NOAUTH}`
abbrev pub auth_resp : List ℕ
auth_resp = version ∷ method_noauth ∷ []

-- `{SVERSION, SOCKS5_REP_SUCCEEDED, 0, SOCKS5_ATYP_IPV4}`, the address 0.0.0.0 and the port 0
abbrev pub connect_resp : List ℕ
connect_resp = version ∷ 0 ∷ 0 ∷ 1 ∷ 0 ∷ 0 ∷ 0 ∷ 0 ∷ 0 ∷ 0 ∷ []

-- After the reply of `size` bytes: the next state, or the error of a short write. (`err` keeps its
-- value there.)
on_reply : ℕ → State → TcpConn → Socks5 → Output → Writing
unfolding fire_error fire_close
on_reply size next c s Output.fail = (Output.fail, c, s)
on_reply size next c s Output.crash = (Output.crash, c, s)
on_reply size next c s (Output.count n) =
    if n == size
    then (Output.count n, c, record s { state = next })
    else (Output.fail, fire_close (fire_error c), s)

module _ (os : Os) where
  open os use {World}

  reply : List ℕ → State → TcpConn → Socks5 → World → Output × TcpConn × Socks5 × World
  unfolding on_reply
  reply resp next c s w =
      let (r, c', w') = tcp_write os c resp w in
      let (r', c'', s') = on_reply (length resp) next c' s r in (r', c'', s', w')

  -- the three states of `tcpSocks5ConnWrite`; only the last one writes the caller's bytes
  write_in : State → TcpConn → Socks5 → List ℕ → ℤ → World → Output × TcpConn × Socks5 × World
  unfolding reply
  write_in init c s mem len w = reply auth_resp handshake c s w
  write_in handshake c s mem len w = reply connect_resp stream c s w
  write_in stream c s mem len w =
      let (r, c', w') = tcp_write os c (slice mem len) w in (r, c', s, w')

  -- `tcpSocks5ConnWrite` of `len` bytes from a pointer at `mem`
  unfoldable pub conn_write :
      TcpConn → Socks5 → List ℕ → ℤ → World → Output × TcpConn × Socks5 × World
  unfolding write_in
  conn_write c s mem len w =
      if s.is_client
      then (Output.fail, give_up error_not_supported c, s, w)
      else write_in s.state c s mem len w

  -- `tcpSocks5ConnFree`
  unfoldable pub conn_free : TcpConn → World → TcpConn × World
  conn_free c w = tcp_close os c w
