-- ===== src/Pipe/Progress.antt =====
-- A pipe between plain connections comes to an end: over a kernel that does not block, each `tcpPipe`
-- moves a byte or more and leaves nothing to write.
use xsocks.Base.{
  ℕ, zero, suc, ◌-◌, ◌≤◌, ◌<◌, ◌≡◌, refl, sym, ap, ◌∙◌, subst, ◌⊎◌, inl, inr, true, List, [], ◌∷◌,
  ◌++◌, none, length, length-append, drop, arith,
}
use xsocks.Base.Int.{ℤ, pos}
use xsocks.Net.{Input, Output}
use xsocks.Net.Posix.{Posix}
use xsocks.Net.Progress.{Flows, net_tcp_read-some, net_tcp_write-all}
use xsocks.Tcp.{add_read}
use xsocks.Tcp.Io.{tcp_read, tcp_write, slice}
use xsocks.Conn.{Env, Conn, conn_read, conn_write}
use xsocks.Conn.Plain.{
  IsPlain, ReadPlain, WritePlain, conn_read-ReadPlain, conn_write-WritePlain, conn_read-plain,
  conn_write-plain,
}
use xsocks.Pipe.{
  tcp_pipe, on_read, after_read, on_written, after_write, mark_piped, store, aim, start_of,
}
use xsocks.Pipe.Flow.{is_added, Relay, pending, IsRelay, slice_read}
use xsocks.Pipe.Relay.{tcp_pipe-Moved}
use xsocks.Pipe.Run.{Step, readable, Reach, here, next, Reach-delivered}

zero_or_more : (n : ℕ) → (n ≡ 0) ⊎ (0 < n)
zero_or_more zero = inl refl
zero_or_more (suc n) = inr (omega arith)

length-nil : (xs : List ℕ) → length xs ≡ 0 → xs ≡ []
length-nil [] e = refl
length-nil (x ∷ xs) e = absurd (omega arith)

-- a first step in front of others
follow :
    {env : Env} {p : Posix env.os} {r s t : Relay env p}
    → Step env p r s
    → Reach env p s t
    → Reach env p r t
follow first here = next here first
follow first (next run last) = next (follow first run) last

module _ (env : Env) (p : Posix env.os) (f : Flows env.os p) where
  open env use {os, crypto}
  open os use {World}
  open p use {inbox, outbox}

  -- The source is read, nothing is left to write, and the buffer has room.
  pub record Reads (r : Relay env p) : Type 0 where
    pub relay : IsRelay env p r
    pub idle : r.dst.base.wbuf ≡ none
    pub added : is_added r.src.base.re ≡ true
    pub room : 0 < length r.src.base.rbuf

  read-some :
      (c : Conn crypto) (n : ℕ) (w : World)
      → IsPlain c.kind
      → 0 < n
      → 0 < length (inbox c.base.fd w)
      → (b : ℕ) × (bs : List ℕ) × ((conn_read env c n w).0 ≡ Input.bytes (b ∷ bs))
  unfolding tcp_read
  read-some c n w plain room coming =
      let (b, bs, e) = net_tcp_read-some os p f c.base.fd n w room coming in
      (b, bs, ground (arith, e, conn_read-plain env p c n w plain))

  write-all :
      (c : Conn crypto) (mem : List ℕ) (len : ℤ) (w : World)
      → IsPlain c.kind
      → (conn_write env c mem len w).0 ≡ Output.count (length (slice mem len))
  unfolding tcp_write
  write-all c mem len w plain = ground (
    arith,
    net_tcp_write-all os p f c.base.fd (slice mem len) w,
    conn_write-plain env p c mem len w plain,
  )

  -- what a `tcpPipe` that leaves nothing to write has done
  record Cleared (bs : List ℕ) (src : Conn crypto) (w : World)
      (out : Output × Conn crypto × Conn crypto × World) : Type 0 where
    result : out.0 ≡ Output.count (length bs)
    idle : out.2.base.wbuf ≡ none
    added : is_added out.1.base.re ≡ is_added (add_read src.base).re
    room : out.1.base.rbuf ≡ src.base.rbuf
    src_fd : out.1.base.fd ≡ src.base.fd
    world : out.3 ≡ w

  after_write-Cleared :
      (bs : List ℕ) (n : ℕ) (src dst : Conn crypto) (w : World)
      → dst.base.wbuf_len ≡ pos n
      → Cleared bs src w (after_write env (length bs) n src dst w)
  unfolding after_write add_read
  after_write-Cleared bs n src dst w e = ground (arith, e)

  added-add_read :
      (c : Conn crypto) → is_added c.base.re ≡ true → is_added (add_read c.base).re ≡ true
  unfolding add_read
  added-add_read c e = ground (arith, e)

  -- what was read is written at once
  after_read-Cleared :
      (bs : List ℕ) (src dst : Conn crypto) (w : World)
      → IsPlain dst.kind
      → dst.base.wbuf ≡ none
      → src.base.rbuf_off ≡ 0
      → (w' : World) × Cleared bs (store env bs src) w' (after_read env bs src dst w)
        × (inbox src.base.fd w' ≡ inbox src.base.fd w)
  unfolding after_read on_written
  after_read-Cleared bs src dst w plain idle off =
      let src' : Conn crypto = store env bs src in
      let dst' : Conn crypto = aim env src' dst in
      let mem : List ℕ = drop (start_of dst'.base.wbuf) src'.base.rbuf in
      let out : Output × Conn crypto × World = conn_write env dst' mem dst'.base.wbuf_len w in
      let wr : WritePlain env p dst' src.base.fd bs w out =
        rw (slice_read env p bs src dst idle off) at
          (conn_write-WritePlain env p dst' src.base.fd mem dst'.base.wbuf_len w plain) in
      let all : out.0 ≡ Output.count (length bs) =
        write-all dst' mem dst'.base.wbuf_len w plain
        ∙ ap (λ t. Output.count (length t)) (slice_read env p bs src dst idle off) in
      let len : out.1.base.wbuf_len ≡ pos (length bs) =
        wr.same.base.wbuf_len ∙ ground (arith, off) in
      (
        out.2,
        rw (after_read, all) (after_write-Cleared bs (length bs) src' out.1 out.2 len),
        wr.kept,
      )

  -- Where the source has bytes to deliver, it is readable, and the event brings some of them over.
  progress :
      (r : Relay env p)
      → Reads r
      → 0 < length (inbox r.src.base.fd r.world)
      → (s : Relay env p) × Step env p r s
        × Reads s
        × (length (inbox s.src.base.fd s.world) < length (inbox r.src.base.fd r.world))
  unfolding tcp_pipe on_read
  progress r v coming =
      let n = length r.src.base.rbuf - r.src.base.rbuf_off in
      let off = v.relay.idle_off v.idle in
      let got = conn_read env r.src n r.world in
      let rd : ReadPlain env p r.src n r.dst.base.fd r.world got =
        conn_read-ReadPlain env p r.src n r.dst.base.fd r.world v.relay.plain_src in
      let (b, bs, e) =
        read-some r.src n r.world v.relay.plain_src (ground (arith, off, v.room)) coming in
      let (w', c, kept) =
        after_read-Cleared (b ∷ bs) got.1 (mark_piped env r.dst) got.2 v.relay.plain_dst v.idle
          (rd.same.base.rbuf_off ∙ off) in
      let piped : tcp_pipe env r.src r.dst r.world
          ≡ after_read env (b ∷ bs) got.1 (mark_piped env r.dst) got.2 =
        ap (λ i. on_read env i got.1 (mark_piped env r.dst) got.2) e in
      let out = tcp_pipe env r.src r.dst r.world in
      let cleared : Cleared (b ∷ bs) (store env (b ∷ bs) got.1) w' out =
        subst (Cleared (b ∷ bs) (store env (b ∷ bs) got.1) w') (sym piped) c in
      let moved = tcp_pipe-Moved env p r (length (b ∷ bs)) v.relay v.idle cleared.result in
      let stream : inbox r.src.base.fd r.world ≡ (b ∷ bs) ++ inbox r.src.base.fd got.2 =
        rw e at rd.stream in
      let rest : inbox out.1.base.fd out.3 ≡ inbox r.src.base.fd got.2 =
        ground (arith, cleared.src_fd, cleared.world, rd.same.base.fd, kept) in
      (
        record { src = out.1; dst = out.2; world = out.3 },
        readable (length (b ∷ bs)) v.added (ap (λ o. (o, out.1, out.2, out.3)) cleared.result),
        record {
          relay = moved.1;
          idle = cleared.idle;
          added =
              cleared.added
              ∙ added-add_read (store env (b ∷ bs) got.1)
                  (ground (arith, rd.same.base.re, v.added));
          room = rw cleared.room (ground (arith, rd.same.base.rbuf_off, off));
        },
        ground (arith, stream, rest, length-append (b ∷ bs) (inbox r.src.base.fd got.2)),
      )

  drain :
      (fuel : ℕ) (r : Relay env p)
      → Reads r
      → length (inbox r.src.base.fd r.world) ≤ fuel
      → (s : Relay env p) × Reach env p r s × Reads s × (length (inbox s.src.base.fd s.world) ≡ 0)
  drain zero r v few = (r, here, v, omega (arith, few))
  drain (suc fuel) r v few = elim (zero_or_more (length (inbox r.src.base.fd r.world))) [
    | inl ended ↦ (r, here, v, ended)
    | inr coming ↦
        let (s, step, v', less) = progress r v coming in
        let (t, steps, v'', ended) = drain fuel s v' (omega (arith, less, few)) in
        (t, follow step steps, v'', ended)
  ]

  -- Over a kernel that does not block, a pipe delivers everything. From a state of two plain connections
  -- (raw, or SOCKS5 behind the handshake) with the invariant `IsRelay`, in which nothing is left to
  -- write and the source is read into a buffer that is not empty, the events of the source lead to a
  -- state in which it has nothing more to deliver, nothing is left to write, and the destination was
  -- sent all that the source had, in order.
  pub Reads-delivers :
      (r : Relay env p)
      → Reads r
      → (s : Relay env p) × Reach env p r s
        × (inbox s.src.base.fd s.world ≡ [])
        × (s.dst.base.wbuf ≡ none)
        × (outbox s.dst.base.fd s.world
            ≡ outbox r.dst.base.fd r.world ++ inbox r.src.base.fd r.world)
  Reads-delivers r v =
      let (s, steps, v', ended) = drain (length (inbox r.src.base.fd r.world)) r v (omega arith) in
      let empty = length-nil (inbox s.src.base.fd s.world) ended in
      let nothing : pending env p r.src r.dst ≡ [] = rw (v.relay.idle_len v.idle) in
      (
        s,
        steps,
        empty,
        v'.idle,
        Reach-delivered env p v.relay steps v'.idle empty ∙ rw nothing refl,
      )
