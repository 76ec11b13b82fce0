-- ===== src/Module/Udp/Run.antt =====
-- A run of a UDP program, the server (src/app/server.c) or the tunnel (src/app/tunnel.c), as its events
-- in any order, and the counter of src/app/module/module_udp.c.
use xsocks.Base.{subst, ◌+◌, ◌≡◌, List, [], ◌∷◌, ◌++◌, some, arith}
use xsocks.Base.Int.{pos}
use xsocks.Udp.Shadowsocks.{UdpEnv, Datagrams}
use xsocks.Module.Udp.{
  UdpServer, UdpClient, UdpConfig, UdpOutcome, undefined, UdpResult, udp_remote_on_read,
  udp_remote_timed_out,
}
use xsocks.Module.Udp.Counters.{
  remotes_of, remotes, left, Keeps, remote_on_read-Keeps, timed_out-Keeps,
}
use xsocks.Module.Udp.Server.{udp_server_on_read}
use xsocks.Module.Udp.Server.Counters.{on_read-Keeps}
use xsocks.Module.Udp.Tunnel.{Ends, tunnel_on_read}
use xsocks.Module.Udp.Tunnel.Counters.{tunnel-Keeps}

-- A program is its `udpServerOnRead`, which counts the remotes that it makes.
pub record UdpProgram (env : UdpEnv) (config : UdpConfig) : Type 0 where
  pub on_read : UdpServer → env.os.sys.World → UdpResult env config
  pub keeps :
      (server : UdpServer) (w : env.os.sys.World) → Keeps env config 0 server (on_read server w)

abbrev pub server_program : (env : UdpEnv) (config : UdpConfig) → UdpProgram env config
server_program env config = record {
  on_read = udp_server_on_read env config;
  keeps = on_read-Keeps env config;
}

abbrev pub tunnel_program : (env : UdpEnv) (config : UdpConfig) → Ends → UdpProgram env config
tunnel_program env config ends = record {
  on_read = tunnel_on_read env config ends;
  keeps = tunnel-Keeps env config ends;
}

module _ (env : UdpEnv) (config : UdpConfig) (program : UdpProgram env config) where
  open env use {os}
  open os use {sys}
  open sys use {World}

  -- the server, its clients and the kernel
  pub record UdpServing : Type 0 where
    pub clients : List UdpClient
    pub server : UdpServer
    pub world : World

  -- An event: the server's socket is readable, or a client's remote is, or its timer has run out. No
  -- callback has undefined behaviour.
  pub data UdpStep (s s' : UdpServing) : Type 0 where
    datagram :
        (o : UdpOutcome)
        → program.on_read s.server s.world ≡ (o, s'.server, s'.world)
        → ((o ≡ undefined) → ⊥)
        → s'.clients ≡ left o ++ s.clients
        → UdpStep s s'
    answered :
        (before after : List UdpClient) (client : UdpClient) (remote : Datagrams) (o : UdpOutcome)
        → s.clients ≡ before ++ (client ∷ after)
        → client.remote ≡ some remote
        → udp_remote_on_read env config client remote s.server s.world ≡ (o, s'.server, s'.world)
        → ((o ≡ undefined) → ⊥)
        → s'.clients ≡ before ++ (left o ++ after)
        → UdpStep s s'
    timed_out :
        (before after : List UdpClient) (client : UdpClient) (remote : Datagrams) (o : UdpOutcome)
        → s.clients ≡ before ++ (client ∷ after)
        → client.remote ≡ some remote
        → udp_remote_timed_out env config client remote s.server s.world ≡ (o, s'.server, s'.world)
        → ((o ≡ undefined) → ⊥)
        → s'.clients ≡ before ++ (left o ++ after)
        → UdpStep s s'

  pub data UdpReach (s : UdpServing) : UdpServing → Type 0 where
    here : UdpReach s s
    next : {t u : UdpServing} → UdpReach s t → UdpStep t u → UdpReach s u

  abbrev pub IsUdpCounted : UdpServing → Type 0
  IsUdpCounted s = s.server.remote_count ≡ pos (remotes s.clients)

  remotes-append : (xs ys : List UdpClient) → remotes (xs ++ ys) ≡ remotes xs + remotes ys
  remotes-append [] ys = omega arith
  remotes-append (x ∷ xs) ys = omega (arith, remotes-append xs ys)

  -- a callback of one client among the others
  among :
      (before after : List UdpClient) (client : UdpClient) (remote : Datagrams) (s : UdpServing)
      (r : UdpResult env config)
      → client.remote ≡ some remote
      → Keeps env config 1 s.server r
      → ((r.0 ≡ undefined) → ⊥)
      → s.server.remote_count ≡ pos (remotes (before ++ (client ∷ after)))
      → r.1.remote_count ≡ pos (remotes (before ++ (left r.0 ++ after)))
  among before after client remote s r set keeps def h =
      let own : remotes_of client ≡ 1 = ground (arith, set) in
      let sum : remotes (before ++ (client ∷ after)) ≡ 1 + (remotes before + remotes after) =
        omega (arith, own, remotes-append before (client ∷ after)) in
      let count = keeps (remotes before + remotes after) (rw sum at h) def in
      let sum' : remotes (before ++ (left r.0 ++ after))
          ≡ remotes (left r.0) + (remotes before + remotes after) =
        omega (arith, remotes-append before (left r.0 ++ after), remotes-append (left r.0) after) in
      rw sum' count

  step-Counted : {s s' : UdpServing} → IsUdpCounted s → UdpStep s s' → IsUdpCounted s'
  step-Counted {s} {s'} h (datagram o e def cs) =
      let keeps =
        subst (Keeps env config 0 s.server) e (program.keeps s.server s.world) (remotes s.clients)
          (ground (arith, h)) def in
      rw (cs, remotes-append (left o) s.clients) keeps
  step-Counted {s} {s'} h (answered before after client remote o cs set e def cs') =
      let keeps =
        subst (Keeps env config 1 s.server) e
          (remote_on_read-Keeps env config client remote s.server s.world) in
      rw cs'
        (among before after client remote s (o, s'.server, s'.world) set keeps def (rw cs at h))
  step-Counted {s} {s'} h (timed_out before after client remote o cs set e def cs') =
      let keeps =
        subst (Keeps env config 1 s.server) e
          (timed_out-Keeps env config client remote s.server s.world) in
      rw cs'
        (among before after client remote s (o, s'.server, s'.world) set keeps def (rw cs at h))

  -- In every run of a UDP program from a state whose counter is right, as long as no callback has
  -- undefined behaviour, it stays right: `remote_count` is the number of clients with a remote. The
  -- server and the tunnel are such programs.
  pub UdpReach-IsUdpCounted : {s s' : UdpServing} → IsUdpCounted s → UdpReach s s' → IsUdpCounted s'
  UdpReach-IsUdpCounted h here = h
  UdpReach-IsUdpCounted h (next run st) = step-Counted (UdpReach-IsUdpCounted h run) st
