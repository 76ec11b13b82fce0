-- ===== src/Module/Server/Connected.antt =====
-- The remote of a server client is connected: what is left of the first packet is written to it.
use xsocks.Base.{
  ℕ, ◌≤◌, ◌≡◌, refl, sym, ap, ◌∙◌, true, false, Bool-cases, inl, inr, List, [], ◌∷◌, ◌++◌,
  append-nil, length-take, take, take_all, ◌==◌, arith,
}
use xsocks.Base.Int.{pos}
use xsocks.Net.{Os, Output}
use xsocks.Net.Posix.{Posix, output_count}
use xsocks.Tcp.{
  TcpConn, Fired, close_fired, error_fired, error_write, add_read, tcp_ok, fire_error, fire_close,
  give_up,
}
use xsocks.Tcp.Io.{tcp_write}
use xsocks.Tcp.Frame.{tcp_write-stream}
use xsocks.Conn.{Env, raw}
use xsocks.Conn.Dispatch.{conn_write-raw}
use xsocks.Module.{Client, Counts, is_closed, alive, prepare, settle}
use xsocks.Module.Server.{Outside, on_connect, on_left_written}

closed-last : (fs : List Fired) → is_closed (fs ++ (close_fired ∷ [])) ≡ true
unfolding is_closed
closed-last [] = refl
closed-last (close_fired ∷ fs) = refl
closed-last (f ∷ fs) = closed-last fs

give_up-closed :
    (code : ℕ) (c : TcpConn) → c.handlers.on_close ≡ true → is_closed (give_up code c).fired ≡ true
unfolding give_up fire_error fire_close
give_up-closed code c h =
    ground (arith, closed-last c.fired, closed-last (c.fired ++ (error_fired ∷ [])))

module _ (os : Os) where
  -- a write that fails closes the connection
  tcp_write-closed :
      (c : TcpConn) (buf : List ℕ) (w : os.World)
      → c.handlers.on_close ≡ true
      → (tcp_write os c buf w).0 ≡ Output.fail
      → is_closed (tcp_write os c buf w).1.fired ≡ true
  unfolding tcp_write
  tcp_write-closed c buf w h e = ground (arith, give_up-closed error_write c h)

take-whole : (off k : ℕ) (xs : List ℕ) → off ≤ k → take k (take off xs) ≡ take off xs
take-whole off k xs h = take_all k (take off xs) (omega (arith, length-take off xs))

module _ (env : Env) (out : Outside env) (p : Posix env.os) where
  open env use {os, crypto}
  open os use {World}
  open p use {outbox}

  -- the payload of the first packet is sent
  pub record Sent (client client' : Client crypto) (fd : ℕ) (w w' : World) : Type 0 where
    pub sent : outbox fd w' ≡ outbox fd w ++ take client.conn.base.rbuf_off client.conn.base.rbuf
    pub rewound : client'.conn.base.rbuf_off ≡ 0

  left_written :
      (client client' : Client crypto) (c : TcpConn) (n n' : Counts) (w w' : World)
      → (r : Output) (b : TcpConn) (w1 : World) → (r ≡ Output.fail → is_closed b.fired ≡ true)
      → outbox c.fd w1
        ≡ outbox c.fd w
          ++ take (output_count r) (take client.conn.base.rbuf_off client.conn.base.rbuf)
      → on_left_written env out r client (record { base = b; kind = raw }) n w1
        ≡ (alive client', n', w')
      → Sent client client' c.fd w w'
  unfolding on_left_written settle prepare add_read
  left_written client client' c n n' w w' Output.fail b w1 h o e = ground (arith, h refl)
  left_written client client' c n n' w w' Output.crash b w1 h o e = cc
  left_written client client' c n n' w w' (Output.count k) b w1 h o e =
      let off = client.conn.base.rbuf_off in
      let enough : off ≤ k = ground arith in
      let world : w' ≡ w1 = ground arith in
      record {
        sent =
            rw world
              (o ∙ ap (λ t. outbox c.fd w ++ t) (take-whole off k client.conn.base.rbuf enough));
        rewound = ground arith;
      }

  on_connect-idle :
      (client client' : Client crypto) (c : TcpConn) (n n' : Counts) (w w' : World)
      → client.conn.base.rbuf_off ≡ 0
      → on_connect env out client (record { base = c; kind = raw }) tcp_ok n w
        ≡ (alive client', n', w')
      → Sent client client' c.fd w w'
  unfolding on_connect prepare add_read
  on_connect-idle client client' c n n' w w' idle e =
      let world : w' ≡ w = ground arith in
      record { sent = rw (world, idle) (sym (append-nil (outbox c.fd w))); rewound = ground arith }

  on_connect-more :
      (client : Client crypto) (c : TcpConn) (n : Counts) (w : World)
      → (client.conn.base.rbuf_off == 0) ≡ false
      → let (r, b, w1) = tcp_write os c (take client.conn.base.rbuf_off client.conn.base.rbuf) w in
        on_connect env out client (record { base = c; kind = raw }) tcp_ok n w
        ≡ on_left_written env out r client (record { base = b; kind = raw }) n w1
  unfolding on_connect
  on_connect-more client c n w more =
      rw (more, conn_write-raw env c client.conn.base.rbuf (pos client.conn.base.rbuf_off) w) refl

  -- The raw remote of a client is connected, with its onClose installed, over a kernel whose
  -- sockets are byte streams. If the callback does not free the client, the remote has been sent
  -- all that was in the client's read buffer up to `rbuf_off`, and `rbuf_off` is 0.
  pub on_connect-Sent :
      (client client' : Client crypto) (c : TcpConn) (n n' : Counts) (w w' : World)
      → c.handlers.on_close ≡ true
      → on_connect env out client (record { base = c; kind = raw }) tcp_ok n w
        ≡ (alive client', n', w')
      → Sent client client' c.fd w w'
  on_connect-Sent client client' c n n' w w' h e =
      elim (Bool-cases (client.conn.base.rbuf_off == 0)) [
        | inl idle ↦ on_connect-idle client client' c n n' w w' (ground (arith, idle)) e
        | inr more ↦
            let bs = take client.conn.base.rbuf_off client.conn.base.rbuf in
            let r = tcp_write os c bs w in
            left_written client client' c n n' w w' r.0 r.1 r.2 (tcp_write-closed os c bs w h)
              (tcp_write-stream os p c c.fd bs w).0 (sym (on_connect-more client c n w more) ∙ e)
      ]
