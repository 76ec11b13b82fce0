-- ===== src/Net/Tests.antt =====
-- Reading and writing on a small kernel: src/lib/core/net.c.
use xsocks.Base.{
  ℕ, ◌≡◌, ◌≤◌, refl, true, false, List, [], ◌∷◌, ◌++◌, length, take, arith, Option, some, ◌↔◌,
}
use xsocks.Net.{
  Input, Output, SysRead, SysWrite, net_tcp_read, net_tcp_write, read_loop, read_result, write_loop,
  write_result,
}
use xsocks.Net.Posix.{input_bytes, output_count}
use xsocks.Net.Resolve.{
  Info, net_ok, udp_get_sock_addr_ex, udp_get_sock_addr_ex-first, host_port_parse,
  host_port_parse-joined,
}
use xsocks.Net.Read.{net_tcp_read-stream, net_tcp_read-closed, read_loop-fuel}
use xsocks.Net.Write.{net_tcp_write-stream, write_loop-fuel}
use xsocks.Net.Loopback.{Wire, wire, wire_posix, wire_inbox, wire_outbox}

abbrev five : Wire
five = record { pending = 1 ∷ 2 ∷ 3 ∷ 4 ∷ 5 ∷ []; burst = 1; sent = []; room = 3; refill = 3 }

abbrev ended : Wire
ended = record { pending = []; burst = 1; sent = []; room = 3; refill = 3 }

abbrev four : List ℕ
four = 6 ∷ 7 ∷ 8 ∷ 9 ∷ []

-- bytes arrive two at a time, and the loop fills the buffer of four
four_read : (net_tcp_read wire 0 4 five).0 ≡ Input.bytes (1 ∷ 2 ∷ 3 ∷ 4 ∷ [])
unfolding net_tcp_read read_loop read_result
four_read = refl

-- three of four bytes fit
three_written : (net_tcp_write wire 1 four five).0 ≡ Output.count 3
unfolding net_tcp_write write_loop write_result
three_written = refl

net_tcp_read-stream_example :
    let (r, closed, w') = net_tcp_read wire 0 4 five in
    (wire_inbox 0 five ≡ input_bytes r ++ wire_inbox 0 w')
    × (length (input_bytes r) ≤ 4)
    × (wire_outbox 1 w' ≡ wire_outbox 1 five)
net_tcp_read-stream_example = net_tcp_read-stream wire wire_posix 0 4 1 five

at_end : (net_tcp_read wire 0 4 ended).1 ≡ true
unfolding net_tcp_read read_loop read_result
at_end = refl

net_tcp_read-closed_example :
    let (r, closed, w') = net_tcp_read wire 0 4 ended in
    (input_bytes r ≡ []) × (wire_inbox 0 w' ≡ [])
net_tcp_read-closed_example = net_tcp_read-closed wire wire_posix 0 4 ended (omega arith) at_end

read_loop-fuel_example :
    read_loop wire 4 0 4 [] (SysRead.got []) five ≡ read_loop wire 9 0 4 [] (SysRead.got []) five
read_loop-fuel_example =
    read_loop-fuel wire wire_posix 4 9 0 4 [] (SysRead.got []) five (omega arith) (omega arith)

net_tcp_write-stream_example :
    let (r, w') = net_tcp_write wire 1 four five in
    (wire_outbox 1 w' ≡ wire_outbox 1 five ++ take (output_count r) four)
    × (output_count r ≤ length four)
    × (wire_inbox 0 w' ≡ wire_inbox 0 five)
net_tcp_write-stream_example = net_tcp_write-stream wire wire_posix 1 0 four five

four-written :
    write_loop wire 4 1 four 0 (SysWrite.wrote 0) five
    ≡ write_loop wire 7 1 four 0 (SysWrite.wrote 0) five
four-written =
    write_loop-fuel wire wire_posix 4 7 1 four 0 (SysWrite.wrote 0) five (omega arith) (omega arith)

abbrev six : Info
six = record { v6 = true; addr = 0 ∷ 1 ∷ [] }

abbrev four_first : Option (List Info)
four_first = some (record { v6 = false; addr = 9 ∷ [] } ∷ six ∷ [])

udp_get_sock_addr_ex-first_example :
    (udp_get_sock_addr_ex true four_first ≡ net_ok (some six))
    ↔ ((rest : List Info) × (four_first ≡ some (six ∷ rest)) × (six.v6 ≡ true))
udp_get_sock_addr_ex-first_example = udp_get_sock_addr_ex-first true four_first six

-- "8:53", where every port is 53
host_port-parsed :
    host_port_parse (λ port. 53) (b'8' ∷ b':' ∷ b'5' ∷ b'3' ∷ []) ≡ some (b'8' ∷ [], 53)
host_port-parsed = host_port_parse-joined (λ port. 53) (b'8' ∷ []) (b'5' ∷ b'3' ∷ []) refl
