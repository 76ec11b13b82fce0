-- ===== src/Pipe/Tests.antt =====
-- A pipe of two raw connections on a small kernel: src/lib/protocol/tcp.c.
use xsocks.Base.{ℕ, ◌≡◌, refl, Bool, true, [], ◌∷◌, ◌++◌, none, arith, ◌==◌, if◌then◌else◌}
use xsocks.Net.{
  Output, net_tcp_read, net_tcp_write, read_loop, read_result, write_loop, write_result,
}
use xsocks.Net.Loopback.{Wire, wire, wire_posix, wire_inbox, wire_outbox}
use xsocks.Tcp.{add_read, add_write, add_time}
use xsocks.Tcp.Io.{tcp_read, tcp_write}
use xsocks.Conn.{Env, raw, Conn, conn_read, conn_write, shadowsocks}
use xsocks.Conn.Loopback.{env, crypto, conn}
use xsocks.Pipe.{
  tcp_pipe, tcp_pipe_write, on_read, after_read, on_written, after_write, on_rest_written,
}
use xsocks.Net.Ideal.{ideal, ideal_posix, ideal_flows}
use xsocks.Pipe.Progress.{Reads, Reads-delivers}
use xsocks.Pipe.Flow.{Relay, IsRelay, flow, pending}
use xsocks.Pipe.Cipher.{Idle, after_read-skips}
use xsocks.TcpShadowsocks
use xsocks.TcpShadowsocks.{Shadowsocks}
use xsocks.Pipe.Run.{readable, writable, Reach, here, next, Reach-flow, Reach-delivered}

abbrev plain_conn : ℕ → Bool → Conn crypto
plain_conn fd reads = record { base = conn fd reads (0 ∷ 0 ∷ 0 ∷ 0 ∷ []); kind = raw }

-- Five bytes are to come; the destination takes three at a time.
abbrev start : Relay env wire_posix
start = record {
  src = plain_conn 0 true;
  dst = plain_conn 1 true;
  world = record { pending = 1 ∷ 2 ∷ 3 ∷ 4 ∷ 5 ∷ []; burst = 1; sent = []; room = 3; refill = 3 };
}

abbrev relay_of : Output × Conn crypto × Conn crypto × Wire → Relay env wire_posix
relay_of out = record { src = out.1; dst = out.2; world = out.3 }

abbrev pipe : Relay env wire_posix → Relay env wire_posix
pipe r = relay_of (tcp_pipe env r.src r.dst r.world)

abbrev pipe_write : Relay env wire_posix → Relay env wire_posix
pipe_write r = relay_of (tcp_pipe_write env r.src r.dst r.world)

-- four bytes are read and three written, then the fourth, then nothing is left, then the fifth
abbrev end_of_run : Relay env wire_posix
end_of_run = pipe (pipe_write (pipe_write (pipe start)))

start-IsRelay : IsRelay env wire_posix start
start-IsRelay = record {
  plain_src = tt;
  plain_dst = tt;
  in_buffer = omega arith;
  not_negative = refl;
  reads_idle = λ h. refl;
  idle_len = λ h. refl;
  idle_off = λ h. refl;
}

run : Reach env wire_posix start end_of_run
unfolding tcp_pipe tcp_pipe_write on_read after_read on_written after_write on_rest_written
    conn_read conn_write tcp_read tcp_write net_tcp_read net_tcp_write read_loop read_result
    write_loop write_result add_read add_write add_time
run =
    next
      (next (next (next here (readable 4 refl refl)) (writable 1 refl refl)) (writable 0 refl refl))
      (readable 1 refl refl)

delivered : wire_outbox 1 end_of_run.world ≡ 1 ∷ 2 ∷ 3 ∷ 4 ∷ 5 ∷ []
unfolding tcp_pipe tcp_pipe_write on_read after_read on_written after_write on_rest_written
    conn_read conn_write tcp_read tcp_write net_tcp_read net_tcp_write read_loop read_result
    write_loop write_result add_read add_write add_time
delivered = refl

Reach-flow_example :
    (flow env wire_posix end_of_run ≡ flow env wire_posix start) × IsRelay env wire_posix end_of_run
Reach-flow_example = Reach-flow env wire_posix start-IsRelay run

idle_at_end : end_of_run.dst.base.wbuf ≡ none
unfolding tcp_pipe tcp_pipe_write on_read after_read on_written after_write on_rest_written
    conn_read conn_write tcp_read tcp_write net_tcp_read net_tcp_write read_loop read_result
    write_loop write_result add_read add_write add_time
idle_at_end = refl

read_at_end : wire_inbox end_of_run.src.base.fd end_of_run.world ≡ []
unfolding tcp_pipe tcp_pipe_write on_read after_read on_written after_write on_rest_written
    conn_read conn_write tcp_read tcp_write net_tcp_read net_tcp_write read_loop read_result
    write_loop write_result add_read add_write add_time
read_at_end = refl

Reach-delivered_example :
    wire_outbox end_of_run.dst.base.fd end_of_run.world ≡ flow env wire_posix start
Reach-delivered_example = Reach-delivered env wire_posix start-IsRelay run idle_at_end read_at_end

-- two bytes of cipher text are left
abbrev behind : Shadowsocks crypto
behind = record {
  state = TcpShadowsocks.stream;
  tmp_buf = 90 ∷ 91 ∷ [];
  tmp_buf_off = 0;
  addrbuf_dest = [];
  e_ctx = tt;
  d_ctx = tt;
}

abbrev quiet : Wire
quiet = record { pending = []; burst = 1; sent = []; room = 9; refill = 9 }

both-sent : (net_tcp_write wire 1 (90 ∷ 91 ∷ []) quiet).0 ≡ Output.count 2
unfolding net_tcp_write write_loop write_result
both-sent = refl

-- three bytes are read, and the first two of them are lost
after_read-skips_example :
    let out =
      after_read env
        (1 ∷ 2 ∷ 3 ∷ [])
        (plain_conn 0 true)
        (record { base = (plain_conn 1 true).base; kind = shadowsocks behind })
        quiet in
    (pending env wire_posix out.1 out.2 ≡ 3 ∷ []) × Idle env wire_posix behind out.2.kind
after_read-skips_example =
    after_read-skips env wire_posix (1 ∷ 2 ∷ 3 ∷ []) (plain_conn 0 true) (plain_conn 1 true).base
      behind quiet 2 refl refl refl refl both-sent (omega arith)

-- the same two connections over a kernel that does not block
abbrev ideal_env : Env
ideal_env = record (env) { os = ideal }

abbrev ready : Relay ideal_env ideal_posix
ready = record {
  src = plain_conn 0 true;
  dst = plain_conn 1 true;
  world = record {
    coming = λ fd. if fd == 0 then 1 ∷ 2 ∷ 3 ∷ 4 ∷ 5 ∷ 6 ∷ 7 ∷ [] else [];
    sent = λ fd. 9 ∷ [];
  };
}

ready-Reads : Reads ideal_env ideal_posix ideal_flows ready
ready-Reads = record {
  relay = record {
    plain_src = tt;
    plain_dst = tt;
    in_buffer = omega arith;
    not_negative = refl;
    reads_idle = λ h. refl;
    idle_len = λ h. refl;
    idle_off = λ h. refl;
  };
  idle = refl;
  added = refl;
  room = omega arith;
}

Reads-delivers_example :
    (s : Relay ideal_env ideal_posix) × Reach ideal_env ideal_posix ready s
    × (ideal_posix.inbox s.src.base.fd s.world ≡ [])
    × (s.dst.base.wbuf ≡ none)
    × (ideal_posix.outbox s.dst.base.fd s.world ≡ (9 ∷ []) ++ (1 ∷ 2 ∷ 3 ∷ 4 ∷ 5 ∷ 6 ∷ 7 ∷ []))
Reads-delivers_example = Reads-delivers ideal_env ideal_posix ideal_flows ready ready-Reads
