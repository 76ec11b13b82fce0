-- ===== src/Module.antt =====
-- src/app/module/module_tcp.c: a client that was accepted and the remote connection that is made for
-- it, the callbacks they install, and the counters of the server.
--
-- The programs log what the callbacks report; only onClose does more: it frees the connection.
pub mod Remote
pub mod Counters
pub mod Piping
pub mod Run
pub mod Serve
pub mod Server
pub mod Local
pub mod Redir
pub mod Start
pub mod Udp
pub mod EndToEnd
use xsocks.Base.{ℕ, Bool, true, false, ◌||◌, List, [], ◌∷◌, ◌++◌, Option, none, some, if◌then◌else◌}
use xsocks.Base.Int.{ℤ, pos, negsuc, ◌-ℤ◌}
use xsocks.Tcp.{TcpConn, Handlers, Fired, close_fired, add_read, del_read, set_timeout}
use xsocks.Tcp.Io.{tcp_accept, tcp_connect}
use xsocks.TcpShadowsocks.{Crypto}
use xsocks.Conn.{Env, ConnType, Conn, conn_new, conn_close}

-- `tcpClient`, with the `tcpRemote` behind it
pub record Client (cr : Crypto) : Type 0 where
  pub conn : Conn cr
  pub remote : Option (Conn cr)

-- The two counters of `tcpServer`.
pub record Counts : Type 0 where
  pub client_count : ℤ
  pub remote_count : ℤ

abbrev pub increment : ℤ → ℤ
increment n = n -ℤ negsuc 0

abbrev pub decrement : ℤ → ℤ
decrement n = n -ℤ pos 1

abbrev client_handlers : Handlers
client_handlers = record {
  on_read = true;
  on_write = false;
  on_timeout = true;
  on_close = true;
  on_error = true;
  on_connect = false;
}

abbrev remote_handlers : Handlers
remote_handlers = record {
  on_read = true;
  on_write = false;
  on_timeout = true;
  on_close = true;
  on_error = true;
  on_connect = true;
}

-- Was onClose called?
pub is_closed : List Fired → Bool
is_closed [] = false
is_closed (close_fired ∷ fs) = true
is_closed (f ∷ fs) = is_closed fs

-- What a callback leaves: the client, nothing (it was freed), or undefined behaviour (`host` and `port`
-- are used uninitialised, or a negative length is copied).
pub data Outcome (cr : Crypto) : Type 0 where
  alive : Client cr → Outcome cr
  freed : Outcome cr
  undefined : Outcome cr

module _ (env : Env) where
  open env use {os, crypto}
  open os use {World}

  abbrev pub edit : (TcpConn → TcpConn) → Conn crypto → Conn crypto
  edit f c = record c { base = f c.base }

  abbrev install : Handlers → TcpConn → TcpConn
  install hs c = record c { handlers = hs }

  -- `tcpClientNew`: whether its allocation succeeds, and the arguments of `tcp_accept`.
  unfoldable pub tcp_client_new : Bool → ConnType → Option ℕ → Bool → ℤ → Option (Client crypto)
  unfolding tcp_accept conn_new add_read
  tcp_client_new false type cfd allocated timeout = none
  tcp_client_new true type cfd allocated timeout = elim (tcp_accept cfd allocated timeout) [
    | none ↦ none
    | some c ↦ some (record {
      conn = edit add_read (edit (install client_handlers) (conn_new env type c));
      remote = none;
    })
  ]

  -- `tcpRemoteNew`, where `fd` is what the connecting gives: the remote connection, and the client,
  -- which waits for it without a timeout and without reading.
  unfoldable pub tcp_remote_new :
      Bool → ConnType → Option ℕ → Bool → ℤ → Client crypto → Option (Client crypto)
  unfolding tcp_connect conn_new set_timeout
  tcp_remote_new false type fd allocated timeout client = none
  tcp_remote_new true type fd allocated timeout client = elim (tcp_connect fd allocated timeout) [
    | none ↦ none
    | some c ↦ some (record {
      conn = edit del_read (edit (λ b. set_timeout b (negsuc 0)) client.conn);
      remote = some (edit (install remote_handlers) (conn_new env type c));
    })
  ]

  -- `tcpRemoteFree`
  pub tcp_remote_free : Option (Conn crypto) → World → World
  unfolding conn_close
  tcp_remote_free none w = w
  tcp_remote_free (some c) w = (conn_close env c w).1

  -- what `tcpConnectionFree` does to the counters
  pub count_free : Client crypto → Counts → Counts
  count_free client n = record {
    client_count = decrement n.client_count;
    remote_count = elim client.remote [ none ↦ n.remote_count | some c ↦ decrement n.remote_count ];
  }

  -- `tcpConnectionFree`
  unfoldable pub tcp_connection_free : Client crypto → Counts → World → Counts × World
  unfolding tcp_remote_free count_free conn_close
  tcp_connection_free client n w =
      (count_free client n, (conn_close env client.conn (tcp_remote_free client.remote w)).1)

  abbrev pub Result : Type 0
  Result = Outcome crypto × Counts × World

  pub free : Client crypto → Counts → World → Result
  unfolding tcp_connection_free
  free client n w = let (n', w') = tcp_connection_free client n w in (freed, n', w')

  -- onClose of the client or of the remote frees the connection, where it was called.
  pub settle : Conn crypto → Client crypto → Counts → World → Result
  unfolding free is_closed
  settle conn client n w =
      if is_closed conn.base.fired then free client n w else (alive client, n, w)

  -- `ADD_EVENT_READ` of both ends
  pub prepare : Client crypto → Conn crypto → Client crypto
  unfolding add_read
  prepare client remote = record {
    conn = edit add_read client.conn;
    remote = some (edit add_read remote);
  }
