-- ===== src/Tcp/Frame.antt =====
-- What reading and writing leave alone in a connection, and what they do to the two streams.
use xsocks.Base.{ℕ, ◌≤◌, ◌≡◌, List, ◌++◌, length, take, arith}
use xsocks.Base.Int.{ℤ}
use xsocks.Net.{Os, Output, net_tcp_write}
use xsocks.Net.Posix.{Posix, input_bytes, output_count}
use xsocks.Net.Read.{net_tcp_read-stream}
use xsocks.Net.Write.{net_tcp_write-stream}
use xsocks.Tcp.{TcpConn, give_up, fire_error, fire_close, add_time, add_write, set_timeout}
use xsocks.Tcp.Io.{tcp_init, tcp_read, tcp_write}

-- The buffers, the pipe and the events of descriptors are as they were.
pub record Kept (c c' : TcpConn) : Type 0 where
  pub fd : c'.fd ≡ c.fd
  pub rbuf : c'.rbuf ≡ c.rbuf
  pub rbuf_off : c'.rbuf_off ≡ c.rbuf_off
  pub wbuf : c'.wbuf ≡ c.wbuf
  pub wbuf_len : c'.wbuf_len ≡ c.wbuf_len
  pub re : c'.re ≡ c.re
  pub we : c'.we ≡ c.we

pub give_up-fd : (code : ℕ) (c : TcpConn) → (give_up code c).fd ≡ c.fd
unfolding give_up fire_error fire_close
give_up-fd code c = ground arith

pub fire_close-fd : (c : TcpConn) → (fire_close (fire_error c)).fd ≡ c.fd
unfolding fire_error fire_close
fire_close-fd c = ground arith

pub set_timeout-Kept : (c : TcpConn) (timeout : ℤ) → Kept c (set_timeout c timeout)
unfolding set_timeout add_time
set_timeout-Kept c timeout = ground arith

pub tcp_init-fd : (c : TcpConn) → (tcp_init c).fd ≡ c.fd
unfolding tcp_init set_timeout add_time add_write
tcp_init-fd c = ground arith

module _ (os : Os) where
  open os use {World}

  pub tcp_read-Kept : (c : TcpConn) (n : ℕ) (w : World) → Kept c (tcp_read os c n w).1
  unfolding tcp_read
  tcp_read-Kept c n w = ground arith

  pub tcp_write-Kept : (c : TcpConn) (buf : List ℕ) (w : World) → Kept c (tcp_write os c buf w).1
  unfolding tcp_write
  tcp_write-Kept c buf w = ground arith

  pub tcp_write-taken :
      (c : TcpConn) (fd : ℕ) (buf : List ℕ) (w w' : World) (n : ℕ)
      → c.fd ≡ fd
      → net_tcp_write os fd buf w ≡ (Output.count n, w')
      → tcp_write os c buf w ≡ (Output.count n, c, w')
  unfolding tcp_write
  tcp_write-taken c fd buf w w' n e taken = ground (arith, e, taken)

module _ (os : Os) (p : Posix os) where
  open os use {World}
  open p use {inbox, outbox}

  pub tcp_read-stream :
      (c : TcpConn) (n g : ℕ) (w : World)
      → let (r, c', w') = tcp_read os c n w in
        (inbox c.fd w ≡ input_bytes r ++ inbox c.fd w')
        × (length (input_bytes r) ≤ n)
        × (outbox g w' ≡ outbox g w)
  unfolding tcp_read
  tcp_read-stream c n g w = ground (arith, net_tcp_read-stream os p c.fd n g w)

  pub tcp_write-stream :
      (c : TcpConn) (g : ℕ) (buf : List ℕ) (w : World)
      → let (r, c', w') = tcp_write os c buf w in
        (outbox c.fd w' ≡ outbox c.fd w ++ take (output_count r) buf)
        × (output_count r ≤ length buf)
        × (inbox g w' ≡ inbox g w)
  unfolding tcp_write
  tcp_write-stream c g buf w = ground (arith, net_tcp_write-stream os p c.fd g buf w)
