-- ===== src/TcpSocks5/Session.antt =====
-- The states of a SOCKS5 connection: init, handshake, stream, and what the peer has been sent in each.
use xsocks.Base.{
  ℕ, ◌≡◌, ◌≢◌, refl, sym, ap, ◌∙◌, subst, List, [], ◌++◌, append_assoc, append-nil, take,
}
use xsocks.Base.Int.{ℤ}
use xsocks.Net.{Os, Input, Output}
use xsocks.Net.Posix.{Posix}
use xsocks.Socks5.{Inet}
use xsocks.Tcp.{TcpConn}
use xsocks.TcpSocks5.Replies.{conn_read-same, sends, after, Written, conn_write-Written}
use xsocks.TcpSocks5.{
  Socks5, State, init, handshake, stream, auth_resp, connect_resp, conn_read, conn_write,
}

-- the replies that were sent when a state is reached
abbrev pub greeting : State → List ℕ
greeting init = []
greeting handshake = auth_resp
greeting stream = auth_resp ++ connect_resp

-- the bytes that a write took as data of the caller, by the state
abbrev pub data_in : State → List ℕ → ℕ → List ℕ
data_in init mem n = []
data_in handshake mem n = []
data_in stream mem n = take n mem

module _ (os : Os) (p : Posix os) where
  open os use {World}
  open p use {inbox, outbox}

  -- a connection and the kernel
  pub record Session : Type 0 where
    pub base : TcpConn
    pub proto : Socks5
    pub world : World

  -- An operation that does not end the connection: a read, or a write of `len` bytes at `mem`.
  pub data Step (inet : Inet) (s s' : Session) : Type 0 where
    reads :
        (n : ℕ) (bs : List ℕ)
        → conn_read inet os s.base s.proto n s.world ≡ (Input.bytes bs, s'.base, s'.proto, s'.world)
        → Step inet s s'
    writes :
        (mem : List ℕ) (len : ℤ) (n : ℕ)
        → conn_write os s.base s.proto mem len s.world
          ≡ (Output.count n, s'.base, s'.proto, s'.world)
        → Step inet s s'

  pub data Reach (inet : Inet) (s : Session) : Session → Type 0 where
    here : Reach inet s s
    next : {t u : Session} → Reach inet s t → Step inet t u → Reach inet s u

  -- the data of the callers in a run: of each write in the state stream the bytes that it took
  unfoldable pub data_of : (inet : Inet) {s s' : Session} → Reach inet s s' → List ℕ
  data_of inet here = []
  data_of inet (next run (reads n bs e)) = data_of inet run
  data_of inet (next {t = t} run (writes mem len n e)) =
      data_of inet run ++ data_in t.proto.state mem n

  -- What the peer was sent behind `sent`: the replies of the state, and behind them `payload`.
  pub record Greeted (sent payload : List ℕ) (s : Session) : Type 0 where
    pub whole : outbox s.base.fd s.world ≡ sent ++ (greeting s.proto.state ++ payload)
    pub none_before : s.proto.state ≢ stream → payload ≡ []

  -- `greeting` and the data, after one more write
  greet :
      (st : State) (sent payload mem : List ℕ) (n : ℕ)
      → (st ≢ stream → payload ≡ [])
      → ((sent ++ (greeting st ++ payload)) ++ sends os p st mem n
          ≡ sent ++ (greeting (after os p st) ++ (payload ++ data_in st mem n)))
        × (after os p st ≢ stream → payload ++ data_in st mem n ≡ [])
  greet init sent payload mem n idle =
      (rw (idle (λ e. cc)) (rw (append-nil sent) refl), λ h. rw (idle (λ e. cc)) refl)
  greet handshake sent payload mem n idle =
      (rw (idle (λ e. cc)) (append_assoc sent auth_resp connect_resp), λ h. absurd (h refl))
  greet stream sent payload mem n idle = (
    append_assoc sent (greeting stream ++ payload) (take n mem)
        ∙ ap (λ t. sent ++ t) (append_assoc (greeting stream) payload (take n mem)),
    λ h. absurd (h refl),
  )

  wrote-Greeted :
      (sent payload : List ℕ) {s s' : Session} {mem : List ℕ} {n : ℕ}
      → Greeted sent payload s
      → Written os p s.base s.proto mem n s.world (Output.count n, s'.base, s'.proto, s'.world)
      → Greeted sent (payload ++ data_in s.proto.state mem n) s'
  wrote-Greeted sent payload {s} {s'} {mem} {n} g w =
      let (whole, none_before) = greet s.proto.state sent payload mem n g.none_before in
      record {
        whole =
            rw (w.fd, w.state)
              (w.sent ∙ ap (λ t. t ++ sends os p s.proto.state mem n) g.whole ∙ whole);
        none_before = rw w.state none_before;
      }

  read-Greeted :
      (inet : Inet) (sent payload : List ℕ) {s s' : Session} (n : ℕ) (bs : List ℕ)
      → Greeted sent payload s
      → conn_read inet os s.base s.proto n s.world ≡ (Input.bytes bs, s'.base, s'.proto, s'.world)
      → Greeted sent payload s'
  read-Greeted inet sent payload {s} n bs g e =
      let (fd, state, same) = rw e at (conn_read-same os p inet s.base s.proto n s.world) in
      record { whole = rw (fd, state) (same ∙ g.whole); none_before = rw state g.none_before }

  -- Over a kernel whose sockets are byte streams, in any run of reads and writes that do not fail,
  -- from a connection in the state init to which only `sent` was sent: the peer has been sent
  -- `sent`, then the method reply if the state is handshake, or the method reply, the connect reply and
  -- the callers' data if it is stream, each once and in this order. The data is that of the run
  -- (`data_of`): of each write in the state stream the bytes that it took, in the order of the writes;
  -- before stream there is none.
  pub Reach-Greeted :
      (inet : Inet) (sent : List ℕ) {s s' : Session}
      → s.proto.state ≡ init
      → outbox s.base.fd s.world ≡ sent
      → (run : Reach inet s s') → Greeted sent (data_of inet run) s'
  unfolding data_of
  Reach-Greeted inet sent start e here = record {
    whole = rw (start, e) (sym (append-nil sent));
    none_before = λ h. refl;
  }
  Reach-Greeted inet sent start e (next run (reads n bs done)) =
      read-Greeted inet sent (data_of inet run) n bs (Reach-Greeted inet sent start e run) done
  Reach-Greeted inet sent start e (next {t = t} run (writes mem len n done)) =
      wrote-Greeted sent (data_of inet run) (Reach-Greeted inet sent start e run) (
        subst (λ r. Written os p t.base t.proto mem n t.world r) done
          (conn_write-Written os p t.base t.proto mem len t.world n (ap (λ r. r.0) done)))
