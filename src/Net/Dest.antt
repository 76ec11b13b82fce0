-- ===== src/Net/Dest.antt =====
-- src/lib/core/net.c: the original destination of a redirected connection (`netTcpGetDestSockAddr`), and
-- the text of an address (`netIpPresentBySockAddr`).
use xsocks.Base.{ℕ, Bool, not, List, Option, none, some}
use xsocks.Socks5.{Inet}

-- A `sockAddrEx` of AF_INET6 or another family: the address, and the port in the host's order.
pub record SockAddr : Type 0 where
  pub v6 : Bool
  pub ip : List ℕ
  pub port : ℕ

abbrev or_get : Option SockAddr → Option SockAddr → Option SockAddr
or_get none b = b
or_get (some a) b = some a

-- `netTcpGetDestSockAddr`, where `original v6` is what getsockopt of SO_ORIGINAL_DST gives at the level
-- SOL_IPV6 or SOL_IP, and none is NET_ERR.
unfoldable pub net_tcp_get_dest_sock_addr : (Bool → Option SockAddr) → Bool → Option SockAddr
net_tcp_get_dest_sock_addr original ipv6_first =
    or_get (original ipv6_first) (original (not ipv6_first))

-- `netIpPresentBySockAddr` with a buffer of `ip_len` bytes: the text and the port, or NET_ERR.
unfoldable pub net_ip_present_by_sock_addr : Inet → SockAddr → ℕ → Option (List ℕ × ℕ)
net_ip_present_by_sock_addr inet sa ip_len = elim (inet.ntop sa.v6 sa.ip ip_len) [
  | none ↦ none
  | some ip ↦ some (ip, sa.port)
]
