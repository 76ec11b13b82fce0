-- ===== src/Udp/Loopback.antt =====
-- A small network for tests and examples: one datagram that every socket receives, and the last one that
-- was sent. A cipher puts one byte in front of a text. Names have an address while `dns` is set.
use xsocks.Base.{
  ℕ, suc, ◌≡◌, refl, Bool, true, false, List, [], ◌∷◌, Option, none, some, length, ◌==◌,
  if◌then◌else◌, arith,
}
use xsocks.Base.Int.{pos}
use xsocks.Net.{SysWrite}
use xsocks.Net.Resolve.{Info, net_err, net_ok, udp_get_sock_addr_ex, preferred, any_family}
use xsocks.Net.Sockets.{Sockets, net_udp_server, server_loop, bind_socket}
use xsocks.Socks5.Example.{inet, name, encoded, name-domain, name-c_string, name-encoded}
use xsocks.Udp.{Received, UdpOs, udp_socket, bind_to}
use xsocks.Udp.Shadowsocks.{UdpEnv, Datagrams, UdpKind}
use xsocks.Udp.Shadowsocks.RoundTrip.{Header, Inverse}

-- the datagram to deliver, the one sent last with its destination, the next descriptor, and how many
-- descriptors were closed
pub record Pool : Type 0 where
  pub incoming : List ℕ
  pub outgoing : List ℕ
  pub destination : Option Info
  pub next : ℕ
  pub closed : ℕ
  pub dns : Bool

abbrev pub peer : Info
peer = record { v6 = false; addr = 9 ∷ [] }

abbrev pub away : Info
away = record { v6 = false; addr = 4 ∷ [] }

abbrev pub sockets : Sockets
sockets = record {
  World = Pool;
  socket = λ p w. (some w.next, record w { next = suc w.next });
  reuse_addr = λ fd w. (true, w);
  non_block = λ fd w. (true, w);
  v6_only = λ fd w. (true, w);
  bind = λ fd p w. (true, w);
  connect = λ fd p w. (none, w);
  close = λ fd w. record w { closed = suc w.closed };
}

abbrev found : Option (List ℕ) → Bool → Option (List Info)
found none dns = some (away ∷ [])
found (some host) dns = if dns then some (away ∷ []) else none

abbrev pub pool : UdpOs
pool = record {
  sys = sockets;
  getaddrinfo = λ family host port w. found host w.dns;
  recvfrom = λ fd n w. (Received.got w.incoming peer, w);
  sendto =
      λ fd buf sa w. (SysWrite.wrote (length buf), record w { outgoing = buf; destination = sa });
}

abbrev pub opened : List ℕ → Option (List ℕ)
opened [] = none
opened (b ∷ bs) = if b == 7 then some bs else none

abbrev pub udp_env : UdpEnv
udp_env = record {
  os = pool;
  inet = inet;
  encrypt_all = λ bs w. (some (7 ∷ bs), w);
  decrypt_all = λ bs w. (opened bs, w);
}

pub opened-closed : (bs text : List ℕ) → some (7 ∷ bs) ≡ some text → opened text ≡ some bs
opened-closed bs [] e = cc
opened-closed bs (t ∷ ts) e = ground (arith, e)

abbrev pub inverse : Inverse udp_env
inverse = record {
  Fresh = λ text u. Unit;
  decrypt-encrypt = λ bs text w u e h. opened-closed bs text e;
}

pub header : Header udp_env name 443 encoded
header = record {
  name = name-domain;
  str = name-c_string;
  small = omega arith;
  p16 = omega arith;
  encoded = name-encoded;
}

abbrev pub pool_with : List ℕ → Bool → Pool
pool_with bs dns = record {
  incoming = bs;
  outgoing = [];
  destination = none;
  next = 5;
  closed = 0;
  dns = dns;
}

abbrev pub after_socket : Pool → Pool
after_socket w = record w { next = suc w.next }

-- a socket is made for a remote
pub socket_made : (w : Pool) → udp_socket pool none 0 false w ≡ (some w.next, after_socket w)
unfolding udp_socket bind_to net_udp_server server_loop bind_socket
socket_made w = refl

pub name_found :
    (host : List ℕ) → udp_get_sock_addr_ex false (found (some host) true) ≡ net_ok (some away)
unfolding udp_get_sock_addr_ex preferred any_family
name_found host = refl

pub name_lost : (host : List ℕ) → udp_get_sock_addr_ex false (found (some host) false) ≡ net_err
unfolding udp_get_sock_addr_ex
name_lost host = refl

abbrev pub datagrams : UdpKind → Datagrams
datagrams kind = record {
  base = record {
    fd = 3;
    timeout = pos 0;
    re = none;
    te = none;
    handlers = record { on_read = true; on_timeout = false; on_close = false; on_error = false };
    error = 0;
    fired = [];
    aborted = false;
  };
  kind = kind;
}
