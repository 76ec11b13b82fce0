-- ===== src/Net/Sockets/Descriptors/Tests.antt =====
-- Runs of `netTcpNonBlockConnect` and `_netUdpServer`.
use xsocks.Base.{◌≡◌, refl, true, false, [], ◌∷◌, none, some}
use xsocks.Net.Sockets.{
  connect_or, configure_or, connect_loop, net_tcp_non_block_connect, bind_socket, server_loop,
  net_udp_server,
}
use xsocks.Net.Sockets.Descriptors.{Owned, net_tcp_non_block_connect-Owned}
use xsocks.Net.Sockets.Table.{table, laws, two, start}

-- the first address is refused, the second is in progress
connects :
    net_tcp_non_block_connect (table false) (some two) start
    ≡ (some 5, record { next = 6; opened = 5 ∷ 0 ∷ 1 ∷ [] })
unfolding net_tcp_non_block_connect connect_loop configure_or connect_or
connects = refl

binds :
    net_udp_server (table false) true (some two) start
    ≡ (none, record { next = 5; opened = 0 ∷ 1 ∷ [] })
unfolding net_udp_server server_loop bind_socket
binds = refl

net_tcp_non_block_connect-Owned_example :
    Owned
      (table false)
      (laws false)
      start
      (net_tcp_non_block_connect (table false) (some two) start)
net_tcp_non_block_connect-Owned_example =
    net_tcp_non_block_connect-Owned (table false) (laws false) (some two) start
