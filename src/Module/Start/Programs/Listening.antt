-- ===== src/Module/Start/Programs/Listening.antt =====
-- For which protocols the programs listen: src/app/server.c and src/app/local.c, with the modes of
-- src/lib/core/config.c.
use Prim.Native.String.{String}
use xsocks.Base.{
  ℕ, ◌≡◌, Bool, true, false, not, List, Option, none, some, arith, Bool-cases, inl, inr,
  if◌then◌else◌,
}
use xsocks.Base.Int.{ℤ, pos, negsuc, ℤ-eqb, is_zero}
use xsocks.Config.{Calls, Config, mode_tcp_only, mode_udp_only}
use xsocks.Config.Parse.{Opt, configured, config_parse}
use xsocks.Config.Parse.Mode.{is_mode, config_parse-mode}
use xsocks.Conn.{Env}
use xsocks.Udp.Shadowsocks.{UdpEnv}
use xsocks.Module.Serve.{TcpServer, tcp_server_new}
use xsocks.Module.Udp.{UdpServer, udp_server_new}
use xsocks.Module.Start.{
  Machine, create_pid_file, load_acl, module_main, after_parse, start, with_pid_file, with_crypto,
  with_acl, run_and_exit, after_run, after_loop,
}
use xsocks.Module.Start.Programs.{
  Names, host, udp_config, wants_tcp, wants_udp, is_some, local_run, redir_run, Servers, Worlds,
  serve_udp, serving, server_run, server_hook,
}

-- of the modes of an accepted configuration, all but one ask for a protocol
mode-asks :
    (z : ℤ)
    → is_mode z ≡ true
    → (wants_tcp z ≡ not (ℤ-eqb z mode_udp_only)) × (wants_udp z ≡ not (ℤ-eqb z mode_tcp_only))
mode-asks (pos n) h = (ground (arith, h), ground (arith, h))
mode-asks (negsuc n) h = absurd cc

not_neither : (z : ℤ) → wants_tcp z ≡ false → wants_udp z ≡ false → is_mode z ≡ true → ⊥
not_neither (pos n) t u h = ground (arith, t, u, h)
not_neither (negsuc n) t u h = absurd cc

module _ (env : Env) (udp : UdpEnv)
    (listen : Bool → Option (List ℕ) → ℕ → env.os.World → Option ℕ × env.os.World)
    (names : Names) where
  -- `serverRun` makes the servers that the mode names.
  server_run-mode :
      (lib : Calls) (xs : List Opt) (help : Bool) (c : Config) (w : Worlds env udp listen names)
      (ts : TcpServer) (us : UdpServer)
      → config_parse lib xs ≡ configured help c
      → (tcp_server_new env listen (host names c.remote_addr) (names.number c.remote_port) w.tcp).0
        ≡ some ts
      → (udp_server_new udp
          (udp_config c)
          (host names c.remote_addr)
          (names.number c.remote_port)
          true
          w.datagrams).0
        ≡ some us
      → let fresh : Servers env udp listen names = record { ts = none; us = none } in
        (s : Servers env udp listen names) × ((server_run env udp listen names c fresh w).0
          ≡ some s)
        × (is_some s.ts ≡ not (ℤ-eqb c.mode mode_udp_only))
        × (is_some s.us ≡ not (ℤ-eqb c.mode mode_tcp_only))
  unfolding server_run serve_udp serving
  server_run-mode lib xs help c w ts us e t u =
      let asks = mode-asks c.mode (config_parse-mode lib xs help c e) in
      elim (Bool-cases (wants_tcp c.mode)) [
        | inl tcp ↦ elim (Bool-cases (wants_udp c.mode)) [
          | inl udp_too ↦ (
            record { ts = some ts; us = some us },
            ground (arith, tcp, udp_too, t, u),
            ground (arith, tcp, asks.0),
            ground (arith, udp_too, asks.1),
          )
          | inr tcp_only ↦ (
            record { ts = some ts; us = none },
            ground (arith, tcp, tcp_only, t),
            ground (arith, tcp, asks.0),
            ground (arith, tcp_only, asks.1),
          )
        ]
        | inr no_tcp ↦ elim (Bool-cases (wants_udp c.mode)) [
          | inl udp_only ↦ (
            record { ts = none; us = some us },
            ground (arith, no_tcp, udp_only, u),
            ground (arith, no_tcp, asks.0),
            ground (arith, udp_only, asks.1),
          )
          | inr neither ↦
              absurd (not_neither c.mode no_tcp neither (config_parse-mode lib xs help c e))
        ]
      ]

  -- The server program comes up with what it is asked for. For every command line whose configuration
  -- `configParse` accepts, without the option -h, with a password, and where the pid file, the ciphers
  -- and the acl are made: `moduleMain` runs the event loop, from servers for just the protocols that the
  -- mode names (TCP unless it is udp_only, UDP unless it is tcp_only), and then returns EXIT_OK behind
  -- `moduleExit`. (The listener and the UDP server can be made.)
  pub server_main-mode :
      (machine : Machine)
      (loop : Servers env udp listen names
        → Worlds env udp listen names
        → Servers env udp listen names × Worlds env udp listen names)
      (xs : List Opt) (c : Config) (password : String) (f f1 f2 f3 : machine.Files)
      (w : Worlds env udp listen names) (ts : TcpServer) (us : UdpServer)
      → config_parse machine.calls xs ≡ configured false c
      → c.password ≡ some password
      → create_pid_file machine
          (server_hook env udp listen names loop)
          c.pidfile
          (if is_zero c.daemonize then f else machine.daemonize f)
        ≡ (true, f1)
      → machine.crypto_init password c.key c.method f1 ≡ (true, f2)
      → load_acl machine (server_hook env udp listen names loop) c f2 ≡ (true, f3)
      → (tcp_server_new env listen (host names c.remote_addr) (names.number c.remote_port) w.tcp).0
        ≡ some ts
      → (udp_server_new udp
          (udp_config c)
          (host names c.remote_addr)
          (names.number c.remote_port)
          true
          w.datagrams).0
        ≡ some us
      → (s : Servers env udp listen names) × (module_main machine
            (server_hook env udp listen names loop)
            xs
            f
            w
          ≡ after_loop machine
              (server_hook env udp listen names loop)
              c
              (loop s (server_run env udp listen names c (record { ts = none; us = none }) w).1)
              f3)
        × (is_some s.ts ≡ not (ℤ-eqb c.mode mode_udp_only))
        × (is_some s.us ≡ not (ℤ-eqb c.mode mode_tcp_only))
  unfolding module_main after_parse start with_pid_file with_crypto with_acl run_and_exit after_run
      server_hook
  server_main-mode machine loop xs c password f f1 f2 f3 w ts us parse pw pid crypto acl t u =
      let (s, ran, tcp, datagrams) = server_run-mode machine.calls xs false c w ts us parse t u in
      (s, ground (arith, parse, pw, pid, crypto, acl, ran), tcp, datagrams)

  -- The local and the redir program start unless the mode is udp_only: they know TCP only. (The listener
  -- can be made.)
  pub local_run-mode :
      (lib : Calls) (xs : List Opt) (help : Bool) (c : Config) (w : env.os.World) (ts : TcpServer)
      → config_parse lib xs ≡ configured help c
      → (tcp_server_new env listen (host names c.local_addr) (names.number c.local_port) w).0
        ≡ some ts
      → (is_some (local_run env listen names c none w).0 ≡ not (ℤ-eqb c.mode mode_udp_only))
        × (is_some (redir_run env listen names c none w).0 ≡ not (ℤ-eqb c.mode mode_udp_only))
  unfolding local_run redir_run
  local_run-mode lib xs help c w ts e t =
      let asks = mode-asks c.mode (config_parse-mode lib xs help c e) in
      elim (Bool-cases (wants_tcp c.mode)) [
        | inl tcp ↦ (ground (arith, tcp, t, asks.0), ground (arith, tcp, t, asks.0))
        | inr no_tcp ↦ (ground (arith, no_tcp, asks.0), ground (arith, no_tcp, asks.0))
      ]
