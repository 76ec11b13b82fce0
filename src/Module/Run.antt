-- ===== src/Module/Run.antt =====
-- A run of a TCP program, as the events of its clients in any order, and its counters. The programs are
-- those of src/app/server.c, src/app/local.c and src/app/redir.c: each fills a record of its callbacks,
-- with the proofs that they keep the counters right.
use xsocks.Base.{
  ℕ, suc, ◌+◌, ◌≡◌, sym, ap, ◌∙◌, List, [], ◌∷◌, ◌++◌, Option, some, length, length-append, arith,
}
use xsocks.Tcp.{Status}
use xsocks.Conn.{Env, Conn}
use xsocks.Module.{Client, Counts, Result, tcp_connection_free, Outcome, freed, undefined}
use xsocks.Module.Piping.{PipeEvent, on_pipe_event, on_pipe_event-Keeps, on_pipe_event-defined}
use xsocks.Module.Counters.{remotes_of, remotes, left, Counted, Keeps, connection_free-Counted}

-- The callbacks of a program, none of which loses count.
pub record TcpProgram (env : Env) : Type 0 where
  pub on_accept : Option ℕ → Counts → env.os.World → Result env
  pub on_read : Client env.crypto → Counts → env.os.World → Result env
  pub on_connect : Client env.crypto → Conn env.crypto → Status → Counts → env.os.World → Result env
  pub accepts :
      (fd : Option ℕ) (n : Counts) (w : env.os.World) (a b : ℕ)
      → Counted env n a b
      → (((on_accept fd n w).0 ≡ undefined) → ⊥)
      → let r = on_accept fd n w in
        Counted env r.1 (length (left env r.0) + a) (remotes env (left env r.0) + b)
  pub reads :
      (client : Client env.crypto) (n : Counts) (w : env.os.World)
      → Keeps env client n (on_read client n w)
  pub connects :
      (client : Client env.crypto) (remote : Conn env.crypto) (s : Status) (n : Counts)
      (w : env.os.World)
      → client.remote ≡ some remote
      → Keeps env client n (on_connect client remote s n w)

module _ (env : Env) (program : TcpProgram env) where
  open env use {os, crypto}
  open os use {World}

  -- the server, its clients and the kernel
  pub record Serving : Type 0 where
    pub clients : List (Client crypto)
    pub counts : Counts
    pub world : World

  -- An event: a connection to accept, a client that is readable, a remote whose connecting has ended, a
  -- remote that is readable or an end that is writable while bytes are piped, or a connection that is
  -- freed for another reason (a timeout, a connect that failed).
  pub data Step (s s' : Serving) : Type 0 where
    accepted :
        (fd : Option ℕ) (o : Outcome crypto)
        → program.on_accept fd s.counts s.world ≡ (o, s'.counts, s'.world)
        → ((o ≡ undefined) → ⊥)
        → s'.clients ≡ left env o ++ s.clients
        → Step s s'
    readable :
        (before after : List (Client crypto)) (client : Client crypto) (o : Outcome crypto)
        → s.clients ≡ before ++ (client ∷ after)
        → program.on_read client s.counts s.world ≡ (o, s'.counts, s'.world)
        → ((o ≡ undefined) → ⊥)
        → s'.clients ≡ before ++ (left env o ++ after)
        → Step s s'
    connected :
        (before after : List (Client crypto)) (client : Client crypto) (remote : Conn crypto)
        → (status : Status) (o : Outcome crypto) → s.clients ≡ before ++ (client ∷ after)
        → client.remote ≡ some remote
        → program.on_connect client remote status s.counts s.world ≡ (o, s'.counts, s'.world)
        → ((o ≡ undefined) → ⊥)
        → s'.clients ≡ before ++ (left env o ++ after)
        → Step s s'
    piped :
        (before after : List (Client crypto)) (client : Client crypto) (remote : Conn crypto)
        → (v : PipeEvent) (o : Outcome crypto) → s.clients ≡ before ++ (client ∷ after)
        → client.remote ≡ some remote
        → on_pipe_event env v client remote s.counts s.world ≡ (o, s'.counts, s'.world)
        → s'.clients ≡ before ++ (left env o ++ after)
        → Step s s'
    closed :
        (before after : List (Client crypto)) (client : Client crypto)
        → s.clients ≡ before ++ (client ∷ after)
        → tcp_connection_free env client s.counts s.world ≡ (s'.counts, s'.world)
        → s'.clients ≡ before ++ after
        → Step s s'

  pub data Reach (s : Serving) : Serving → Type 0 where
    here : Reach s s
    next : {t u : Serving} → Reach s t → Step t u → Reach s u

  abbrev pub IsCounted : Serving → Type 0
  IsCounted s = Counted env s.counts (length s.clients) (remotes env s.clients)

  remotes-append :
      (xs ys : List (Client crypto)) → remotes env (xs ++ ys) ≡ remotes env xs + remotes env ys
  remotes-append [] ys = omega arith
  remotes-append (x ∷ xs) ys = omega (arith, remotes-append xs ys)

  -- a callback of one client among the others
  among :
      (before after : List (Client crypto)) (client : Client crypto) (o : Outcome crypto)
      (n n' : Counts)
      → ((a b : ℕ)
          → Counted env n (suc a) (remotes_of env client + b)
          → Counted env n' (length (left env o) + a) (remotes env (left env o) + b))
      → Counted env n
          (length (before ++ (client ∷ after)))
          (remotes env (before ++ (client ∷ after)))
      → Counted env n'
          (length (before ++ (left env o ++ after)))
          (remotes env (before ++ (left env o ++ after)))
  among before after client o n n' keeps h = ground (
    arith,
    length-append before (client ∷ after),
    remotes-append before (client ∷ after),
    length-append before (left env o ++ after),
    remotes-append before (left env o ++ after),
    length-append (left env o) after,
    remotes-append (left env o) after,
    keeps (length before + length after) (remotes env before + remotes env after),
  )

  step-IsCounted : {s s' : Serving} → IsCounted s → Step s s' → IsCounted s'
  step-IsCounted {s} h (accepted fd o e def cs) =
      let r =
        program.accepts fd s.counts s.world (length s.clients) (remotes env s.clients) h
          (λ t. def (sym (ap (λ r. r.0) e) ∙ t)) in
      rw (cs, length-append (left env o) s.clients, remotes-append (left env o) s.clients)
        (rw e at r)
  step-IsCounted {s} {s'} h (readable before after client o cs e def cs') = rw cs' (
      among before after client o s.counts s'.counts
        (λ a b c.
          rw e at
            (program.reads client s.counts s.world a b c (λ t. def (sym (ap (λ r. r.0) e) ∙ t))))
        (rw cs at h))
  step-IsCounted {s} {s'} h (connected before after client remote status o cs set e def cs') =
      rw cs' (
        among before after client o s.counts s'.counts
          (λ a b c. rw e at (
            program.connects client remote status s.counts s.world set a b c
              (λ t. def (sym (ap (λ r. r.0) e) ∙ t))))
          (rw cs at h))
  step-IsCounted {s} {s'} h (piped before after client remote v o cs set e cs') = rw cs' (
      among before after client o s.counts s'.counts
        (λ a b c. rw e at (
          on_pipe_event-Keeps env v client remote s.counts s.world set a b c
            (on_pipe_event-defined env v client remote s.counts s.world)))
        (rw cs at h))
  step-IsCounted {s} {s'} h (closed before after client cs e cs') = rw cs' (
      among before after client freed s.counts s'.counts
        (λ a b c. rw e at (connection_free-Counted env client s.counts s.world a b c)) (rw cs at h))

  -- In every run of a program (accepting, reading from clients and remotes, writing to either, connecting,
  -- closing) from a state whose counters are right, as long as no callback has undefined behaviour,
  -- they stay right: `client_count` is the number of clients, and
  -- `remote_count` the number of those with a remote. The server, local and redir programs are such
  -- programs.
  pub Reach-IsCounted : {s s' : Serving} → IsCounted s → Reach s s' → IsCounted s'
  Reach-IsCounted h here = h
  Reach-IsCounted h (next run st) = step-IsCounted (Reach-IsCounted h run) st
