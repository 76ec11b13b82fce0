-- ===== src/Module/Serve.antt =====
-- src/app/module/module_tcp.c: making and freeing a `tcpServer`.
use xsocks.Base.{ℕ, suc, ◌≡◌, Bool, List, Option, none, some, arith}
use xsocks.Base.Int.{pos}
use xsocks.Tcp.Listener.{
  Listener, tcp_listen, tcp_listen_new, tcp_listen_read_handler, tcp_listen_free,
}
use xsocks.Conn.{Env}
use xsocks.Module.{Counts}
use xsocks.Module.Counters.{Counted}

-- `tcpServer`
pub record TcpServer : Type 0 where
  pub listener : Listener
  pub counts : Counts

module _ (env : Env)
    (listen : Bool → Option (List ℕ) → ℕ → env.os.World → Option ℕ × env.os.World) where
  open env use {os}
  open os use {World}

  -- `tcpServerNew` where its allocation succeeds
  unfoldable pub tcp_server_new : Option (List ℕ) → ℕ → World → Option TcpServer × World
  unfolding tcp_listen
  tcp_server_new host port w =
      let (ln, w') = tcp_listen os listen host port w in
      elim ln [
        | none ↦ (none, w')
        | some l ↦ (
          some (record {
            listener = l;
            counts = record { client_count = pos 0; remote_count = pos 0 };
          }),
          w',
        )
      ]

  -- `tcpServerFree`
  pub tcp_server_free : Option TcpServer → World → World
  unfolding tcp_listen_free
  tcp_server_free none w = w
  tcp_server_free (some s) w = tcp_listen_free os listen s.listener w

  -- A new server has no clients, and its counters say so; each time its descriptor is readable it
  -- accepts once.
  pub tcp_server_new-Counted :
      (host : Option (List ℕ)) (port : ℕ) (w : World) (s : TcpServer)
      → (tcp_server_new host port w).0 ≡ some s
      → Counted env s.counts 0 0
        × ((tcp_listen_read_handler s.listener).accepts ≡ suc s.listener.accepts)
  unfolding tcp_server_new tcp_listen tcp_listen_new tcp_listen_read_handler
  tcp_server_new-Counted host port w s e = ground (arith, e)
