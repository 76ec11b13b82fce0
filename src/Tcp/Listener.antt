-- ===== src/Tcp/Listener.antt =====
-- The listener of src/lib/protocol/tcp.c. anetTcpServer and anetTcp6Server are a parameter.
use xsocks.Base.{ℕ, Bool, true, false, List, Option, none, some, suc, ◌||◌, if◌then◌else◌}
use xsocks.Base.Int.{pos}
use xsocks.Net.{Os}
use xsocks.Socks5.{is_ipv6_addr}
use xsocks.Tcp.{Event, is_null, added}

-- `tcpListener`: `accepting` says that onAccept is installed, `accepts` how often it was called.
pub record Listener : Type 0 where
  pub fd : ℕ
  pub re : Option Event
  pub accepting : Bool
  pub accepts : ℕ
  pub aborted : Bool

-- `tcpListenNew` where its allocation succeeds
unfoldable pub tcp_listen_new : ℕ → Listener
tcp_listen_new fd = record {
  fd = fd;
  re = some (record { id = pos fd; added = false });
  accepting = false;
  accepts = 0;
  aborted = false;
}

abbrev is_v6 : Option (List ℕ) → Bool
is_v6 none = false
is_v6 (some host) = is_ipv6_addr host

-- `tcpListenReadHandler`
unfoldable pub tcp_listen_read_handler : Listener → Listener
tcp_listen_read_handler ln = if ln.accepting then record ln { accepts = suc ln.accepts } else ln

module _ (os : Os) (listen : Bool → Option (List ℕ) → ℕ → os.World → Option ℕ × os.World) where
  open os use {World, close}

  -- `tcpListen`, where `listen` is given whether the host is an IPv6 address, the host and the port.
  unfoldable pub tcp_listen : Option (List ℕ) → ℕ → World → Option Listener × World
  unfolding tcp_listen_new
  tcp_listen host port w =
      let (fd, w') = listen (is_v6 host) host port w in
      elim fd [
        | none ↦ (none, w')
        | some s ↦
            let ln = tcp_listen_new s in
            (
              some (record ln {
                accepting = true;
                re = added ln.re;
                aborted = ln.aborted || is_null ln.re;
              }),
              w',
            )
      ]

  -- `tcpListenFree`
  unfoldable pub tcp_listen_free : Listener → World → World
  tcp_listen_free ln w = close ln.fd w
