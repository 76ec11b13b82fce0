-- ===== src/Lib.antt =====
-- xsocks: a lightweight proxy of the shadowsocks family, and what is verified of it.
--
-- The programs (src/app) are an event loop, a listener, and for each client a pair of connections
-- between which bytes are piped. A connection (src/lib/protocol/tcp.c) has a descriptor, events, a
-- read buffer, and the functions `read`, `write` and `close` of its protocol: raw, SOCKS5 or
-- shadowsocks. A program reads the destination from the client, connects a remote, and from then on
-- `tcpPipe` and `tcpPipeWrite` move the bytes. For UDP (src/lib/protocol/udp.c) a client is made for
-- each datagram, with a socket of its own that sends it on and waits for one answer.
--
-- The parts, and the files that model them:
--   Base                shared names, Boolean tests, lists over the native numbers, signed integers
--   Net                 src/lib/core/net.c: netTcpRead (`net_tcp_read`), netTcpWrite (`net_tcp_write`);
--                       Net.Posix states what they rely on of the kernel, Net.Loopback is an instance,
--                       Net.Progress and Net.Ideal are those of a kernel that does not block
--   Net.Resolve         netUdpGetSockAddrEx and netHostPortParse of src/lib/core/net.c
--   Net.Sockets         netTcpNonBlockConnect and _netUdpServer, over the socket calls
--   Net.Dest            netTcpGetDestSockAddr and netIpPresentBySockAddr
--   Utils               xs_itoa of src/lib/core/utils.c
--   Event               src/lib/event/event.c and event_ae.h: making, adding and deleting events;
--                       Event.Libev the same over src/lib/event/event_libev.h
--   Socks5              src/lib/protocol/socks5.c: socks5AddrInit (`addr_init`), socks5AddrParse
--                       (`addr_parse`)
--   Tcp, Tcp.Io         src/lib/protocol/tcp.c and tcp.h: the connection, its events, its handlers
--   Tcp.Listener        the listener of src/lib/protocol/tcp.c
--   TcpSocks5           src/lib/protocol/tcp_socks5.c: the server side of the SOCKS5 handshake
--   TcpShadowsocks      src/lib/protocol/tcp_shadowsocks.c: the encrypted connection
--   Conn                the function pointers of src/lib/protocol/proxy.h, and raw.c: `conn_read` and
--                       `conn_write` call the protocol of the connection
--   Pipe                tcpPipe, tcpPipeWrite and tcpConnWriteHandler of src/lib/protocol/tcp.c;
--                       Pipe.Progress follows the events of a whole stream
--   Udp                 src/lib/protocol/udp.c and udp.h; Udp.Loopback is an instance of its kernel
--   Udp.Shadowsocks     src/lib/protocol/udp_shadowsocks.c and raw.c: the encrypted datagram
--   Module              src/app/module/module_tcp.c: clients, remotes, the counters; Module.Serve the
--                       server, Module.Run the runs of a program, whichever it is
--   Module.Piping       tcpRemoteOnRead and the writable events of a client and its remote
--   Module.Server       src/app/server.c: the callbacks of the server program for TCP
--   Module.Local        src/app/local.c: the callbacks of the local program
--   Module.Redir        src/app/redir.c: the callbacks of the redir program
--   Module.EndToEnd     the local or the redir program, and the server program behind it
--   Module.Udp          src/app/module/module_udp.c: clients and remotes of UDP
--   Module.Udp.Server   src/app/server.c: the callback of the server program for UDP
--   Module.Udp.Tunnel   src/app/tunnel.c: the callback of the tunnel program
--   Module.Udp.EndToEnd the tunnel program, and the server program behind it
--   Module.Start        src/app/module/module.c: `module_main`, from the command line to the end;
--                       Module.Start.Programs are the functions Init, Run and Exit of the programs
--   Config              src/lib/core/config.c: `config_new`, `config_load`, `config_parse`
--
-- A function that changes a connection takes and returns the record `TcpConn` or `UdpConn`, or the record
-- of its protocol, and the state of the kernel (`World`). A C `int` that counts bytes is a number, with
-- the error as a constructor of its own (`Input`, `Output`); `wbuf_len`, the timeouts and the counters
-- are signed (`ℤ`); the period of a timer wraps around as a 32 bit `int`. Buffers are lists of bytes; `wbuf`, a pointer into the read buffer of the other end,
-- is an offset. A callback is recorded in `fired` where the code calls it, and what it does to the
-- connection is in Module; memory that a callback has freed is not modelled any further, but where
-- module_udp.c frees a remote twice or the code goes on with an address that was never set, the outcome
-- is `undefined`.
--
-- Fuel: the loops of netTcpRead and netTcpWrite run for as many rounds as the buffer has bytes. Each
-- round but the last moves a byte or more, so this is enough. The loop of xs_itoa runs for at most one
-- round more than its number, which each round divides by ten. The loops over the results of
-- getaddrinfo are recursion on the list.
--
-- Parameters: the system calls (`Os`, with the laws of `Posix` where a theorem needs them;
-- `Sockets` with those of `Descriptors`; `UdpOs`), the ciphers of shadowsocks-libev (`Crypto`, with
-- `StreamInverse`; those of datagrams in `UdpEnv`, with `Inverse`), inet_pton and inet_ntop
-- (`Inet`, with `Fits`), the loop of redis (`Ae`) and that of libev (`Ev`), for the programs the acl and the
-- connecting of a socket (`Outside`), and for the configuration the C library, the file system and
-- the JSON parser (`Calls`); for the frame of the programs the files and the process (`Machine`)
-- and the event loop, which runs the callbacks.
--
-- Not modelled: deps (libipset, redis, shadowsocks-libev and json-parser are other projects), the log,
-- clocks and memory helpers of src/lib/core, the running of the event loop, the
-- handlers of signals and the texts that the programs print (src/app/module/module.c), configFree, and
-- the benchmarks.
pub mod Base
pub mod Net
pub mod Socks5
pub mod Tcp
pub mod TcpSocks5
pub mod Udp
pub mod Event
pub mod Utils
pub mod TcpShadowsocks
pub mod Conn
pub mod Pipe
pub mod Module
pub mod Config
