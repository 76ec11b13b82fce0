-- ===== src/Module/Piping.antt =====
-- The events of a client and its remote while bytes are piped: `tcpRemoteOnRead` of
-- src/app/module/module_tcp.c, and `tcpConnWriteHandler` of src/lib/protocol/tcp.c for either end. (What
-- the end of its connecting does to a remote is in the programs.)
use xsocks.Base.{◌≡◌, some, arith, if◌then◌else◌}
use xsocks.Conn.{Env, Conn}
use xsocks.Pipe.{tcp_pipe, tcp_conn_write_handler}
use xsocks.Module.{Client, Counts, undefined, Result, is_closed, free, settle}
use xsocks.Module.Counters.{Keeps, free-Keeps, settle-Keeps}

-- the remote is readable, or one of the two ends is writable
pub data PipeEvent : Type 0 where
  remote_readable client_writable remote_writable : PipeEvent

module _ (env : Env) where
  open env use {os, crypto}
  open os use {World}

  -- onClose of either end frees both, where it was called.
  pub settle_both : Conn crypto → Conn crypto → Counts → World → Result env
  settle_both conn remote n w =
      let client : Client crypto = record { conn = conn; remote = some remote } in
      if is_closed conn.base.fired then free env client n w else settle env remote client n w

  -- `tcpRemoteOnRead`
  pub tcp_remote_on_read : Client crypto → Conn crypto → Counts → World → Result env
  unfolding settle_both
  tcp_remote_on_read client remote n w =
      let (r, src, dst, w') = tcp_pipe env remote client.conn w in settle_both dst src n w'

  -- `tcpConnWriteHandler` of the client's connection, and of the remote's
  pub on_client_writable : Client crypto → Conn crypto → Counts → World → Result env
  unfolding settle_both
  on_client_writable client remote n w =
      let (src, dst, w') = tcp_conn_write_handler env remote client.conn w in
      settle_both dst src n w'

  pub on_remote_writable : Client crypto → Conn crypto → Counts → World → Result env
  unfolding settle_both
  on_remote_writable client remote n w =
      let (src, dst, w') = tcp_conn_write_handler env client.conn remote w in
      settle_both src dst n w'

  pub on_pipe_event : PipeEvent → Client crypto → Conn crypto → Counts → World → Result env
  unfolding tcp_remote_on_read on_client_writable on_remote_writable
  on_pipe_event remote_readable client remote n w = tcp_remote_on_read client remote n w
  on_pipe_event client_writable client remote n w = on_client_writable client remote n w
  on_pipe_event remote_writable client remote n w = on_remote_writable client remote n w

  settle_both-Keeps :
      (conn remote : Conn crypto) (client : Client crypto) (r : Conn crypto) (n : Counts)
      (w : World)
      → client.remote ≡ some r
      → Keeps env client n (settle_both conn remote n w)
  unfolding settle_both
  settle_both-Keeps conn remote client r n w e a b h def =
      let client' : Client crypto = record { conn = conn; remote = some remote } in
      ground (arith, e, free-Keeps env client' n w a b, settle-Keeps env remote client' n w a b)

  pub on_pipe_event-Keeps :
      (v : PipeEvent) (client : Client crypto) (remote : Conn crypto) (n : Counts) (w : World)
      → client.remote ≡ some remote
      → Keeps env client n (on_pipe_event v client remote n w)
  unfolding on_pipe_event tcp_remote_on_read on_client_writable on_remote_writable
  on_pipe_event-Keeps remote_readable client remote n w e =
      let r = tcp_pipe env remote client.conn w in settle_both-Keeps r.2 r.1 client remote n r.3 e
  on_pipe_event-Keeps client_writable client remote n w e =
      let r = tcp_conn_write_handler env remote client.conn w in
      settle_both-Keeps r.1 r.0 client remote n r.2 e
  on_pipe_event-Keeps remote_writable client remote n w e =
      let r = tcp_conn_write_handler env client.conn remote w in
      settle_both-Keeps r.0 r.1 client remote n r.2 e

  settle_both-defined :
      (conn remote : Conn crypto) (n : Counts) (w : World)
      → (settle_both conn remote n w).0 ≡ undefined
      → ⊥
  unfolding settle_both free settle
  settle_both-defined conn remote n w e = ground (arith, e)

  -- None of them has undefined behaviour.
  pub on_pipe_event-defined :
      (v : PipeEvent) (client : Client crypto) (remote : Conn crypto) (n : Counts) (w : World)
      → (on_pipe_event v client remote n w).0 ≡ undefined
      → ⊥
  unfolding on_pipe_event tcp_remote_on_read on_client_writable on_remote_writable
  on_pipe_event-defined remote_readable client remote n w = settle_both-defined _ _ n _
  on_pipe_event-defined client_writable client remote n w = settle_both-defined _ _ n _
  on_pipe_event-defined remote_writable client remote n w = settle_both-defined _ _ n _
