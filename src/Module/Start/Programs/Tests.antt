-- ===== src/Module/Start/Programs/Tests.antt =====
-- The server program over a small kernel: src/app/server.c.
use Prim.Native.String.{String}
use xsocks.Base.{ℕ, ◌≡◌, refl, Bool, true, false, List, [], ◌∷◌, Option, none, some, length}
use xsocks.Base.Int.{pos}
use xsocks.Net.{SysWrite}
use xsocks.Net.Sockets.Table.{table, two, start}
use xsocks.Socks5.{is_ipv6_addr}
use xsocks.Socks5.Example.{inet}
use xsocks.Net.Resolve.{Info}
use xsocks.Config.Parse.Example.{udp_calls, udp_line, udp_result, udp_line-parsed}
use xsocks.Conn.Loopback.{env}
use xsocks.Net.Loopback.{Wire}
use xsocks.Tcp.Listener.{tcp_listen, tcp_listen_new}
use xsocks.Udp.{
  Received, no_udp_handlers, udp_socket, bind_to, udp_create, udp_conn_new, udp_init,
  udp_set_timeout, udp_add_time,
}
use xsocks.Net.Sockets.{net_udp_server, server_loop, bind_socket}
use xsocks.Module.Serve.{TcpServer, tcp_server_new}
use xsocks.Module.Udp.{UdpServer, udp_server_new}
use xsocks.Module.Start.Programs.Listening.{server_main-mode}
use xsocks.Udp.Shadowsocks.{UdpEnv, shadowsocks, udp_conn_of}
use xsocks.Module.Start.{Machine, create_pid_file, after_loop, module_main}
use xsocks.Module.Start
use xsocks.Module.Start.Programs.{
  Names, host, is_some, udp_config, server_run, Servers, Worlds, server_hook,
}

-- the files that there are
abbrev machine : Machine
machine = record {
  Files = List String;
  calls = udp_calls;
  daemonize = λ f. f;
  create_file = λ path f. (true, path ∷ f);
  unlink = λ path f. [];
  crypto_init = λ password key method f. (true, f);
  init_acl = λ path f. (true, f);
  free_acl = λ f. f;
}

abbrev udp : UdpEnv
udp = record {
  os = record {
    sys = table true;
    getaddrinfo = λ family host port w. some two;
    recvfrom = λ fd n w. (Received.failed 11, w);
    sendto = λ fd buf sa w. (SysWrite.wrote (length buf), w);
  };
  inet = inet;
  encrypt_all = λ bs w. (some bs, w);
  decrypt_all = λ bs w. (some bs, w);
}

abbrev names : Names
names = record { bytes = λ s. []; number = λ n. 53 }

abbrev listening : Bool → Option (List ℕ) → ℕ → Wire → Option ℕ × Wire
listening v6 host port w = (some 3, w)

abbrev worlds : Worlds env udp listening names
worlds = record {
  tcp = record { pending = []; burst = 1; sent = []; room = 9; refill = 9 };
  datagrams = start;
}

-- the loop that is stopped while a client waits for its answer, at the descriptor 5
abbrev stopped :
    Servers env udp listening names
    → Worlds env udp listening names
    → Servers env udp listening names × Worlds env udp listening names
stopped s w =
    let p : Info = record { v6 = false; addr = [] } in
    (s, record w { datagrams = (udp.os.sys.socket p w.datagrams).1 })

-- -U: the server listens for UDP alone, on the descriptor 4
abbrev listener : TcpServer
listener = record {
  listener = record {
    fd = 3;
    re = some (record { id = pos 3; added = true });
    accepting = true;
    accepts = 0;
    aborted = false;
  };
  counts = record { client_count = pos 0; remote_count = pos 0 };
}

listener-made :
    (tcp_server_new env listening (host names udp_result.remote_addr) 53 worlds.tcp).0
    ≡ some listener
unfolding tcp_server_new tcp_listen tcp_listen_new
listener-made = refl

abbrev socket : UdpServer
socket = record {
  conn = record {
    base = record {
      fd = 4;
      timeout = pos 60;
      re = some (record { id = pos 4; added = true });
      te = some (record { id = pos 60000; added = true });
      handlers = record no_udp_handlers { on_read = true };
      error = 0;
      fired = [];
      aborted = false;
    };
    kind = shadowsocks [];
  };
  remote_count = pos 0;
}

socket-made :
    (udp_server_new udp (udp_config udp_result) (host names udp_result.remote_addr) 53 true start).0
    ≡ some socket
unfolding udp_server_new udp_create udp_socket bind_to net_udp_server server_loop bind_socket
    udp_conn_new udp_conn_of udp_init udp_set_timeout udp_add_time is_ipv6_addr
socket-made = refl

created :
    create_pid_file machine (server_hook env udp listening names stopped) udp_result.pidfile []
    ≡ (true, [])
unfolding create_pid_file
created = refl

server_main-mode_example :
    (s : Servers env udp listening names) × (module_main machine
        (server_hook env udp listening names stopped)
        udp_line
        []
        worlds
      ≡ after_loop machine
          (server_hook env udp listening names stopped)
          udp_result
          (stopped s
            (server_run env udp listening names udp_result
              (record { ts = none; us = none })
              worlds).1)
          [])
    × (is_some s.ts ≡ false)
    × (is_some s.us ≡ true)
server_main-mode_example =
    server_main-mode env udp listening names machine stopped udp_line udp_result "foobar" [] [] []
      [] worlds listener socket udp_line-parsed refl created refl refl listener-made socket-made
