-- ===== src/Module/Start/Programs/Closed.antt =====
-- Which UDP sockets the program of src/app/server.c leaves open at its end.
use xsocks.Base.{ℕ, ◌≡◌, Bool, true, false, Option, none, some, List, arith}
use xsocks.Net.Sockets.Descriptors
use xsocks.Net.Sockets.Descriptors.{Descriptors}
use xsocks.Config.{Config}
use xsocks.Udp.{UdpConn}
use xsocks.Udp.Shadowsocks.{UdpEnv, udp_conn_of}
use xsocks.Conn.{Env}
use xsocks.Module.Udp.{UdpServer}
use xsocks.Module.Start.{Ended, returned}
use xsocks.Module.Start.Programs.{Names, Servers, Worlds, server_run}

module _ (env : UdpEnv) (d : Descriptors env.os.sys) where
  open env use {os}
  open os use {sys}
  open sys use {World}
  open d use {is_open}

  -- the descriptor of a server
  abbrev pub server_fd : Option UdpServer → Option ℕ
  server_fd none = none
  server_fd (some s) = some s.conn.base.fd

  udp_conn_of-fd : (secure : Bool) (c : UdpConn) → (udp_conn_of secure c).base.fd ≡ c.fd
  unfolding udp_conn_of
  udp_conn_of-fd secure c = ground arith

module _ (env : Env) (udp : UdpEnv) (d : Descriptors udp.os.sys)
    (listen : Bool → Option (List ℕ) → ℕ → env.os.World → Option ℕ × env.os.World)
    (names : Names) where
  open d use {is_open}

  abbrev AllServers : Type 0
  AllServers = Servers env udp listen names

  abbrev AllWorlds : Type 0
  AllWorlds = Worlds env udp listen names

  abbrev no_servers : AllServers
  no_servers = record { ts = none; us = none }

  module _ (loop : AllServers → AllWorlds → AllServers × AllWorlds) (w : AllWorlds) (g : ℕ) where
    -- what `serverRun` makes in `w`
    abbrev Running : AllServers → AllWorlds → Type 0
    Running s w' = (c : Config) × (server_run env udp listen names c no_servers w ≡ (some s, w'))

    -- what the loop makes of it
    abbrev Stopped : AllServers → AllWorlds → Type 0
    Stopped s w' = (s0 : AllServers) × (w0 : AllWorlds) × Running s0 w0 × (loop s0 w0 ≡ (s, w'))

    -- `g` is a socket that the loop has left open, not that of the server.
    abbrev pub LeftByLoop : Type 0
    LeftByLoop =
        (s : AllServers) × (w' : AllWorlds) × Stopped s w'
        × (is_open g w'.datagrams ≡ true)
        × (Descriptors.returned udp.os.sys d (server_fd udp d s.us) g ≡ false)

    -- where `g` is open at the end, the program has returned, and the loop has left it so
    abbrev Settled : Ended → AllWorlds → Type 0
    Settled e w' = is_open g w'.datagrams ≡ true → (e ≡ returned) × LeftByLoop

    abbrev Fresh : AllServers → AllWorlds → Type 0
    Fresh s w' = (s ≡ no_servers) × (w' ≡ w)
