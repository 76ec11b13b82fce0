-- ===== src/Module/Start/Programs.antt =====
-- The functions Init, Run and Exit of the programs: src/app/server.c, local.c, redir.c and tunnel.c.
pub mod Closed
pub mod Listening
mod Tests
use Prim.Native.String.{String}
use xsocks.Base.{ℕ, ◌/◌, ◌%◌, Bool, true, false, not, List, Option, none, some, ◌==◌, if◌then◌else◌}
use xsocks.Base.Int.{ℤ, pos, negsuc, is_zero}
use xsocks.Config.{Config}
use xsocks.Conn.{Env}
use xsocks.Udp.Shadowsocks.{UdpEnv}
use xsocks.Module.Serve.{TcpServer, tcp_server_new, tcp_server_free}
use xsocks.Module.Udp.{UdpServer, UdpConfig, udp_server_new, udp_server_free}
use xsocks.Module.Start.{Hook}

-- `mode & MODE_TCP_ONLY` and `mode & MODE_UDP_ONLY`, in two's complement
abbrev pub wants_tcp : ℤ → Bool
wants_tcp (pos n) = n % 2 == 1
wants_tcp (negsuc n) = n % 2 == 0

abbrev pub wants_udp : ℤ → Bool
wants_udp (pos n) = n / 2 % 2 == 1
wants_udp (negsuc n) = n / 2 % 2 == 0

abbrev pub is_some : {A : Type 0} → Option A → Bool
is_some none = false
is_some (some x) = true

-- the texts of the configuration as bytes, and what snprintf and getaddrinfo make of the number of a port
pub record Names : Type 0 where
  pub bytes : String → List ℕ
  pub number : ℤ → ℕ

abbrev pub host : Names → Option String → Option (List ℕ)
host names none = none
host names (some s) = some (names.bytes s)

abbrev pub udp_config : Config → UdpConfig
udp_config c = record { ipv6_first = not (is_zero c.ipv6_first); timeout = c.timeout }

module _ (env : Env) (listen : Bool → Option (List ℕ) → ℕ → env.os.World → Option ℕ × env.os.World)
    (names : Names) where
  open env use {os}
  open os use {World}

  -- `localRun`
  pub local_run : Config → Option TcpServer → World → Option (Option TcpServer) × World
  local_run c ts w =
      let (ts', w') =
        if wants_tcp c.mode
        then tcp_server_new env listen (host names c.local_addr) (names.number c.local_port) w
        else (ts, w) in
      if is_some ts' then (some ts', w') else (none, w')

  -- `redirRun`, which is written like `localRun`
  pub redir_run : Config → Option TcpServer → World → Option (Option TcpServer) × World
  unfolding local_run
  redir_run c ts w = local_run c ts w

  -- the hook of the local program
  pub local_hook :
      (Option TcpServer → World → Option TcpServer × World) → Hook (Option TcpServer) World
  unfolding local_run
  local_hook loop = record {
    init = λ c w. (some none, w);
    run = local_run;
    loop = loop;
    exit = tcp_server_free env listen;
  }

  -- the hook of the redir program
  pub redir_hook :
      (Option TcpServer → World → Option TcpServer × World) → Hook (Option TcpServer) World
  unfolding redir_run
  redir_hook loop = record {
    init = λ c w. (some none, w);
    run = redir_run;
    loop = loop;
    exit = tcp_server_free env listen;
  }

module _ (env : UdpEnv) (names : Names) where
  open env use {os}
  open os use {sys}
  open sys use {World}

  -- without a server the program ends
  or_exit : Option UdpServer × World → Option (Option UdpServer) × World
  or_exit (none, w) = (none, w)
  or_exit (some us, w) = (some (some us), w)

  -- `tunnelInit`
  tunnel_init : Config → World → Option (Option UdpServer) × World
  unfolding or_exit
  tunnel_init c w = elim c.tunnel_addr [
    | none ↦ (none, w)
    | some addr ↦ or_exit (
        if wants_udp c.mode
        then udp_server_new env (udp_config c) (host names c.local_addr) (names.number c.local_port)
            false w
        else (none, w))
  ]

  -- the hook of the tunnel program; `tunnelRun` only logs
  unfoldable pub tunnel_hook :
      (Option UdpServer → World → Option UdpServer × World) → Hook (Option UdpServer) World
  unfolding tunnel_init
  tunnel_hook loop = record {
    init = tunnel_init;
    run = λ c us w. (some us, w);
    loop = loop;
    exit = udp_server_free env;
  }

-- the server program: its state, and the kernel for TCP and for UDP
module _ (env : Env) (udp : UdpEnv)
    (listen : Bool → Option (List ℕ) → ℕ → env.os.World → Option ℕ × env.os.World)
    (names : Names) where
  pub record Servers : Type 0 where
    pub ts : Option TcpServer
    pub us : Option UdpServer

  pub record Worlds : Type 0 where
    pub tcp : env.os.World
    pub datagrams : udp.os.sys.World

  -- the UDP server of `serverRun`
  serve_udp : Config → Option UdpServer → udp.os.sys.World → Option UdpServer × udp.os.sys.World
  serve_udp c us u =
      if wants_udp c.mode
      then udp_server_new udp (udp_config c) (host names c.remote_addr) (names.number c.remote_port)
          true u
      else (us, u)

  -- without a server the program ends
  serving : Option TcpServer → Option UdpServer → Worlds → Option Servers × Worlds
  serving none none w = (none, w)
  serving none (some us) w = (some (record { ts = none; us = some us }), w)
  serving (some ts) us w = (some (record { ts = some ts; us = us }), w)

  -- `serverRun`
  pub server_run : Config → Servers → Worlds → Option Servers × Worlds
  unfolding serve_udp serving
  server_run c s w =
      let (ts, w') =
        if wants_tcp c.mode
        then tcp_server_new env listen (host names c.remote_addr) (names.number c.remote_port) w.tcp
        else (s.ts, w.tcp) in
      let (us, u) = serve_udp c s.us w.datagrams in
      serving ts us (record { tcp = w'; datagrams = u })

  -- `serverExit`
  server_exit : Servers → Worlds → Worlds
  server_exit s w = record {
    tcp = tcp_server_free env listen s.ts w.tcp;
    datagrams = udp_server_free udp s.us w.datagrams;
  }

  -- the hook of the server program
  unfoldable pub server_hook : (Servers → Worlds → Servers × Worlds) → Hook Servers Worlds
  unfolding server_run server_exit
  server_hook loop = record {
    init = λ c w. (some (record { ts = none; us = none }), w);
    run = server_run;
    loop = loop;
    exit = server_exit;
  }
