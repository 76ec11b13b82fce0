-- ===== src/TcpShadowsocks/Tests.antt =====
-- A write of a shadowsocks connection on a small kernel: src/lib/protocol/tcp_shadowsocks.c.
use xsocks.Base.{ℕ, ◌≡◌, ◌≢◌, refl, true, List, [], ◌∷◌, ◌++◌, arith}
use xsocks.Base.Int.{pos}
use xsocks.Net.{Output, net_tcp_write, write_loop, write_result}
use xsocks.Net.Loopback.{Wire, wire, wire_posix, wire_outbox}
use xsocks.Tcp.Io.{tcp_write}
use xsocks.Conn.Loopback.{crypto, conn}
use xsocks.TcpShadowsocks.{
  Shadowsocks, stream, write_data, encrypt_plain, write_pending, on_written,
}
use xsocks.TcpShadowsocks.Cipher.{left, IsBuffer, fresh, write_data-left}

abbrev talking : Shadowsocks crypto
talking = record {
  state = stream;
  tmp_buf = [];
  tmp_buf_off = 0;
  addrbuf_dest = [];
  e_ctx = tt;
  d_ctx = tt;
}

-- the kernel takes three bytes
abbrev narrow : Wire
narrow = record { pending = []; burst = 1; sent = []; room = 3; refill = 3 }

abbrev four : List ℕ
four = 1 ∷ 2 ∷ 3 ∷ 4 ∷ []

-- three of the five bytes of cipher text
partly : (write_data crypto wire (conn 1 true []) talking four (pos 4) narrow).0 ≡ Output.count 3
unfolding write_data encrypt_plain write_pending on_written tcp_write net_tcp_write write_loop
    write_result
partly = refl

not_failed : (write_data crypto wire (conn 1 true []) talking four (pos 4) narrow).0 ≢ Output.fail
not_failed e = cc (partly, e)

write_data-left_example :
    let (r, c', s', w') = write_data crypto wire (conn 1 true []) talking four (pos 4) narrow in
    (wire_outbox 1 w' ++ left crypto wire wire_posix s'
      ≡ (wire_outbox 1 narrow ++ left crypto wire wire_posix talking)
        ++ fresh crypto wire wire_posix talking four 4)
    × IsBuffer crypto wire wire_posix s'
write_data-left_example =
    write_data-left crypto wire wire_posix (conn 1 true []) talking four 4 narrow (omega arith)
      not_failed
