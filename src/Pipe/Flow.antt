-- ===== src/Pipe/Flow.antt =====
-- A pipe between plain connections is a byte stream: nothing is lost, repeated or reordered, however
-- reads and writes are split and whenever the descriptors would block.
use xsocks.Base.{
  ℕ, zero, suc, ◌+◌, ◌-◌, ◌≤◌, ◌≡◌, refl, sym, ap, ◌∙◌, Bool, true, false, List, [], ◌∷◌, ◌++◌,
  append_assoc, Option, none, some, length, length-append, take, drop, take-length_append,
  take-append-drop, arith, drop_all,
}
use xsocks.Base.Int.{pos, pos_part, neg_part}
use xsocks.Net.{Output}
use xsocks.Net.Posix.{Posix}
use xsocks.Tcp.{Event}
use xsocks.Tcp.Io.{slice}
use xsocks.Conn.{Env, Conn, conn_write}
use xsocks.Conn.Plain.{IsPlain, WritePlain, conn_write-WritePlain}
use xsocks.Pipe.{after_read, after_write, on_written, store, aim, start_of}

abbrev pub is_added : Option Event → Bool
is_added none = false
is_added (some e) = e.added

-- the first bytes of a write buffer that holds `bs`, and the rest of it
module _ (bs mem : List ℕ) where
  window_all : (n : ℕ) → n ≡ length bs → take n (bs ++ mem) ≡ bs
  window_all n e = rw e (take-length_append bs mem)

pub window_rest :
    (bs mem : List ℕ) (n k : ℕ) → n + k ≡ length bs → take k (drop n (bs ++ mem)) ≡ drop n bs
window_rest bs mem zero k e = window_all bs mem k (omega arith)
window_rest [] mem (suc n) k e = absurd (omega arith)
window_rest (b ∷ bs) mem (suc n) k e = window_rest bs mem n k (omega arith)

module _ (env : Env) (p : Posix env.os) where
  open env use {os, crypto}
  open os use {World}
  open p use {inbox, outbox}

  -- two connections and the kernel
  pub record Relay : Type 0 where
    pub src : Conn crypto
    pub dst : Conn crypto
    pub world : World

  -- the bytes that were read and are not written yet
  abbrev pub pending : Conn crypto → Conn crypto → List ℕ
  pending src dst = take (pos_part dst.base.wbuf_len) (drop (start_of dst.base.wbuf) src.base.rbuf)

  -- all that the destination gets: what it was sent, what is in the buffer, what is still to come
  abbrev pub flow : Relay → List ℕ
  flow r = outbox r.dst.base.fd r.world ++ (pending r.src r.dst ++ inbox r.src.base.fd r.world)

  -- The source is read only while nothing is left to write.
  pub record IsRelay (r : Relay) : Type 0 where
    pub plain_src : IsPlain r.src.kind
    pub plain_dst : IsPlain r.dst.kind
    pub in_buffer : start_of r.dst.base.wbuf + pos_part r.dst.base.wbuf_len ≤ length r.src.base.rbuf
    pub not_negative : neg_part r.dst.base.wbuf_len ≡ 0
    pub reads_idle : is_added r.src.base.re ≡ true → r.dst.base.wbuf ≡ none
    pub idle_len : r.dst.base.wbuf ≡ none → r.dst.base.wbuf_len ≡ pos 0
    pub idle_off : r.dst.base.wbuf ≡ none → r.src.base.rbuf_off ≡ 0

  -- the state of a pipe that has `bs` still to write after `after_write`
  record Left (bs : List ℕ) (src dst : Conn crypto) (w : World) (nread : ℕ)
      (out : Output × Conn crypto × Conn crypto × World) : Type 0 where
    result : out.0 ≡ Output.count nread
    world : out.3 ≡ w
    src_fd : out.1.base.fd ≡ src.base.fd
    dst_fd : out.2.base.fd ≡ dst.base.fd
    left : pending out.1 out.2 ≡ bs
    relay : IsRelay (record { src = out.1; dst = out.2; world = out.3 })

  after_write-Left :
      (bs mem : List ℕ) (nread n : ℕ) (src dst : Conn crypto) (w : World)
      → IsPlain src.kind
      → IsPlain dst.kind
      → src.base.rbuf ≡ bs ++ mem
      → dst.base.wbuf ≡ some 0
      → dst.base.wbuf_len ≡ pos (length bs)
      → n ≤ length bs
      → Left (drop n bs) src dst w nread (after_write env nread n src dst w)
  unfolding after_write
  after_write-Left bs mem nread n src dst w ps pd buf start len h =
      ground (arith, window_rest bs mem n (length bs - n), drop_all n bs, length-append bs mem)

  -- what was sent before and `bs` are what is sent now and what is left of `bs`
  pub step_flow :
      (o o2 bs inb inb2 left : List ℕ) (n : ℕ)
      → o2 ≡ o ++ take n bs
      → left ≡ drop n bs
      → inb2 ≡ inb
      → o2 ++ (left ++ inb2) ≡ o ++ (bs ++ inb)
  step_flow o o2 bs inb inb2 left n e f g =
      rw (e, f, g, append_assoc)
        (ap (λ t. o ++ t)
          (sym (append_assoc (take n bs) (drop n bs) inb)
            ∙ ap (λ t. t ++ inb) (take-append-drop n bs)))

  pub record Moved (bs : List ℕ) (src dst : Conn crypto) (w : World)
      (out : Output × Conn crypto × Conn crypto × World) : Type 0 where
    pub flows :
        flow (record { src = out.1; dst = out.2; world = out.3 })
        ≡ outbox dst.base.fd w ++ (bs ++ inbox src.base.fd w)
    pub relay : IsRelay (record { src = out.1; dst = out.2; world = out.3 })

  -- the bytes that `tcpPipe` writes are those that it read
  pub slice_read :
      (bs : List ℕ) (src dst : Conn crypto)
      → dst.base.wbuf ≡ none
      → src.base.rbuf_off ≡ 0
      → let src' = store env bs src in
        let dst' = aim env src' dst in
        slice (drop (start_of dst'.base.wbuf) src'.base.rbuf) dst'.base.wbuf_len ≡ bs
  slice_read bs src dst none_left off =
      ground (arith, take-length_append bs (drop (0 + length bs) src.base.rbuf))

  on_written-Moved :
      (bs mem : List ℕ) (src dst : Conn crypto) (w : World) (n : ℕ)
      (out : Output × Conn crypto × World)
      → IsPlain src.kind
      → IsPlain dst.kind
      → src.base.rbuf ≡ bs ++ mem
      → dst.base.wbuf ≡ some 0
      → dst.base.wbuf_len ≡ pos (length bs)
      → WritePlain env p dst src.base.fd bs w out
      → (on_written env (length bs) out.0 src out.1 out.2).0 ≡ Output.count n
      → Moved bs src dst w (on_written env (length bs) out.0 src out.1 out.2)
  unfolding on_written
  on_written-Moved bs mem src dst w n (Output.fail, c, w') ps pd buf start len wr ok = cc
  on_written-Moved bs mem src dst w n (Output.crash, c, w') ps pd buf start len wr ok = cc
  on_written-Moved bs mem src dst w n (Output.count k, c, w') ps pd buf start len wr ok =
      let plain : IsPlain c.kind = rw wr.same.kind pd in
      let l : Left (drop k bs) src c w' (length bs) (after_write env (length bs) k src c w') =
        after_write-Left bs mem (length bs) k src c w' ps plain buf (wr.same.base.wbuf ∙ start)
          (wr.same.base.wbuf_len ∙ len) wr.room in
      record {
        flows =
            rw (l.world, l.src_fd, l.dst_fd, l.left, wr.same.base.fd)
              (step_flow (outbox dst.base.fd w) (outbox dst.base.fd w') bs (inbox src.base.fd w)
                (inbox src.base.fd w') (drop k bs) k wr.stream refl wr.kept);
        relay = l.relay;
      }

  pub after_read-Moved :
      (bs : List ℕ) (src dst : Conn crypto) (w : World) (n : ℕ)
      → IsPlain src.kind
      → IsPlain dst.kind
      → dst.base.wbuf ≡ none
      → src.base.rbuf_off ≡ 0
      → (after_read env bs src dst w).0 ≡ Output.count n
      → Moved bs src dst w (after_read env bs src dst w)
  unfolding after_read
  after_read-Moved bs src dst w n ps pd idle off ok =
      let src' : Conn crypto = store env bs src in
      let dst' : Conn crypto = aim env src' dst in
      let mem : List ℕ = drop (start_of dst'.base.wbuf) src'.base.rbuf in
      let out : Output × Conn crypto × World = conn_write env dst' mem dst'.base.wbuf_len w in
      let wr : WritePlain env p dst' src.base.fd bs w out =
        rw (slice_read bs src dst idle off) at
          (conn_write-WritePlain env p dst' src.base.fd mem dst'.base.wbuf_len w pd) in
      let m : Moved bs src' dst' w (on_written env (length bs) out.0 src' out.1 out.2) =
        on_written-Moved bs (drop (0 + length bs) src.base.rbuf) src' dst' w n out ps pd
          (ground arith) (ground arith) (ground arith) wr ok in
      record { flows = m.flows; relay = m.relay }
