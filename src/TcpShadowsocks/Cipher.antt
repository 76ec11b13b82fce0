-- ===== src/TcpShadowsocks/Cipher.antt =====
-- The cipher text that a shadowsocks connection sends, and the states that it goes through.
use xsocks.Base.{
  ℕ, ◌≤◌, ◌≡◌, refl, ap, List, [], ◌∷◌, ◌++◌, append_assoc, Option, none, some, length, length-drop,
  take, drop, take-append-drop, drop-add, append-nil, arith, ◌==◌, ◌≢◌, if◌then◌else◌, drop_all,
}
use xsocks.Base.Int.{pos}
use xsocks.Net.{Os, Output}
use xsocks.Net.Posix.{Posix, output_count}
use xsocks.Tcp.{TcpConn}
use xsocks.Tcp.Io.{tcp_write}
use xsocks.Tcp.Frame.{tcp_write-stream}
use xsocks.TcpShadowsocks.{
  Crypto, Shadowsocks, on_written, write_pending, write_data, encrypt_plain,
}

abbrev pub text_of : Option (List ℕ) → List ℕ
text_of none = []
text_of (some text) = text

length-nil : (bs : List ℕ) → length bs ≡ 0 → bs ≡ []
length-nil [] e = refl
length-nil (b ∷ bs) e = absurd (omega arith)

module _ (cr : Crypto) (os : Os) (p : Posix os) where
  open cr use {encrypt}
  open os use {World}
  open p use {outbox}

  -- the cipher text that is not sent yet
  abbrev pub left : Shadowsocks cr → List ℕ
  left s = drop s.tmp_buf_off s.tmp_buf

  -- `tmp_buf_off` is inside the buffer
  abbrev pub IsBuffer : Shadowsocks cr → Type 0
  IsBuffer s = s.tmp_buf_off ≤ length s.tmp_buf

  on_written-left :
      (r : Output) (c : TcpConn) (s : Shadowsocks cr) (w : World)
      → IsBuffer s
      → output_count r ≤ length (left s)
      → let (r', c', s', w') = on_written cr os r c s w in
        (left s' ≡ drop (output_count r) (left s))
        × IsBuffer s'
        × (output_count r' ≡ output_count r)
        × (w' ≡ w)
        × (c' ≡ c)
  unfolding on_written
  on_written-left Output.fail c s w v h = ground arith
  on_written-left Output.crash c s w v h = ground arith
  on_written-left (Output.count n) c s w v h = ground (
    arith,
    length-drop s.tmp_buf_off s.tmp_buf,
    drop_all n (left s),
    drop-add s.tmp_buf_off n s.tmp_buf,
  )

  -- Writing what is left sends a prefix of it and keeps the rest: the cipher text on the wire followed
  -- by the cipher text in the buffer stays the same sequence.
  pub write_pending-left :
      (c : TcpConn) (s : Shadowsocks cr) (w : World)
      → IsBuffer s
      → let (r, c', s', w') = write_pending cr os c s w in
        (outbox c.fd w' ++ left s' ≡ outbox c.fd w ++ left s) × IsBuffer s'
  unfolding write_pending
  write_pending-left c s w v =
      let out = tcp_write os c (left s) w in
      let st = tcp_write-stream os p c c.fd (left s) w in
      let h = on_written-left out.0 out.1 s out.2 v st.1 in
      (
        rw (h.0, h.3, st.0, append_assoc)
            (ap (λ t. outbox c.fd w ++ t) (take-append-drop (output_count out.0) (left s))),
        h.1,
      )

  -- the cipher text that a write of `len` bytes at `mem` adds: none while some is left
  abbrev pub fresh : Shadowsocks cr → List ℕ → ℕ → List ℕ
  fresh s mem n = if length s.tmp_buf == 0 then text_of (encrypt (take n mem) s.e_ctx).0 else []

  -- A write behind the address, of a number of bytes that is not negative, that does not fail,
  -- over a kernel whose sockets are byte streams: what the peer has been sent, then what is left
  -- in the buffer, grows by the cipher text of the bytes, or by nothing if older cipher text was
  -- left; also where the kernel takes only a part. The offset stays inside the buffer.
  pub write_data-left :
      (c : TcpConn) (s : Shadowsocks cr) (mem : List ℕ) (n : ℕ) (w : World)
      → IsBuffer s
      → (write_data cr os c s mem (pos n) w).0 ≢ Output.fail
      → let (r, c', s', w') = write_data cr os c s mem (pos n) w in
        (outbox c.fd w' ++ left s' ≡ (outbox c.fd w ++ left s) ++ fresh s mem n) × IsBuffer s'
  unfolding write_data encrypt_plain
  write_data-left c s mem n w v ok = ground (
    arith,
    length-nil s.tmp_buf,
    append-nil (outbox c.fd w ++ left s),
    append-nil (outbox c.fd w),
    write_pending-left c s w v,
    write_pending-left c
        (record s {
          tmp_buf = text_of (encrypt (take n mem) s.e_ctx).0;
          e_ctx = (encrypt (take n mem) s.e_ctx).1;
        })
        w,
  )
