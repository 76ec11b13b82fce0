-- ===== src/TcpSocks5/Auth.antt =====
-- The two messages of a SOCKS5 client: the method request and the connect request.
use xsocks.Base.{
  ℕ, zero, suc, ◌+◌, ◌≤◌, ◌<◌, ◌≡◌, refl, sym, ap, ◌∙◌, ◌↔◌, inl, true, false, List, [], ◌∷◌, ◌++◌,
  some, length, length-append, length-take, take, take-append-drop, drop, arith,
}
use xsocks.Net.{Os, Input}
use xsocks.Socks5.{
  Inet, Addr, out_of_bounds, ok, addr_init, addr_parse, c_string, host_parse, atyp_domain,
  hostname_max_len,
}
use xsocks.Socks5.Bounds.{addr_parse-in_bounds}
use xsocks.Socks5.RoundTrip.{addr_parse-addr_init}
use xsocks.Tcp.{TcpConn}
use xsocks.Tcp.Io.{tcp_read}
use xsocks.TcpSocks5.{
  Socks5, handshake, version, method_noauth, cmd_connect, offers_noauth, auth_accepts,
  request_parse, conn_read, conn_init, on_bytes, on_request,
}

-- The method request of RFC 1928: the version, the number of methods, the methods, of which one is "no
-- authentication". Bytes may follow.
pub data MethodRequest : List ℕ → Type 0 where
  method_request :
      (before after rest : List ℕ) (n : ℕ)
      → n ≡ length before + suc (length after)
      → MethodRequest (version ∷ n ∷ (before ++ (method_noauth ∷ after)) ++ rest)

-- the methods around the one that the loop finds
record Found (n : ℕ) (methods : List ℕ) : Type 0 where
  before : List ℕ
  after : List ℕ
  rest : List ℕ
  whole : methods ≡ (before ++ (method_noauth ∷ after)) ++ rest
  count : n ≡ length before + suc (length after)

offers-Found : (n : ℕ) (ms : List ℕ) → n ≤ length ms → offers_noauth n ms ≡ true → Found n ms
unfolding offers_noauth
offers-Found zero ms h e = cc
offers-Found (suc n) [] h e = cc
offers-Found (suc zero) (zero ∷ ms) h e = record {
  before = [];
  after = [];
  rest = ms;
  whole = refl;
  count = refl;
}
offers-Found (suc n) (zero ∷ ms) h e = record {
  before = [];
  after = take n ms;
  rest = drop n ms;
  whole = ap (λ t. zero ∷ t) (sym (take-append-drop n ms));
  count = omega (arith, length-take n ms);
}
offers-Found (suc n) (suc m ∷ ms) h e =
    let f = offers-Found n ms (omega arith) (ground arith) in
    record {
      before = suc m ∷ f.before;
      after = f.after;
      rest = f.rest;
      whole = ap (λ t. suc m ∷ t) f.whole;
      count = omega (arith, f.count);
    }

Found-offers :
    (before after rest : List ℕ) (n : ℕ)
    → n ≡ length before + suc (length after)
    → offers_noauth n ((before ++ (method_noauth ∷ after)) ++ rest) ≡ true
unfolding offers_noauth
Found-offers [] after rest zero e = absurd (omega arith)
Found-offers [] after rest (suc n) e = ground arith
Found-offers (b ∷ before) after rest zero e = absurd (omega arith)
Found-offers (b ∷ before) after rest (suc n) e =
    ground (arith, Found-offers before after rest n (omega arith))

accepted : (buf : List ℕ) → auth_accepts buf ≡ true → MethodRequest buf
unfolding auth_accepts
accepted [] e = ground arith
accepted (v ∷ []) e = ground arith
accepted (v ∷ n ∷ ms) e =
    let f = offers-Found n ms (ground arith) (ground arith) in
    let v5 : v ≡ version = ground arith in
    rw (v5, f.whole) (method_request f.before f.after f.rest n f.count)

requested : {buf : List ℕ} → MethodRequest buf → auth_accepts buf ≡ true
unfolding auth_accepts
requested (method_request before after rest n e) = ground (
  arith,
  Found-offers before after rest n e,
  length-append (before ++ (method_noauth ∷ after)) rest,
  length-append before (method_noauth ∷ after),
)

-- The checks of the method request accept a buffer exactly when it is the version, a number of
-- methods and at least that many methods, and "no authentication" is among the methods that the
-- number counts.
pub auth_accepts-MethodRequest : (buf : List ℕ) → (auth_accepts buf ≡ true) ↔ MethodRequest buf
auth_accepts-MethodRequest buf = (accepted buf, λ r. requested r)

module _ (inet : Inet) (os : Os) where
  open os use {World}

  abbrev domain : List ℕ → ℕ → Addr
  domain host port = record { atyp = atyp_domain; host = host; host_len = length host; port = port }

  request_parse-connect :
      (reserved : ℕ) (bs : List ℕ) (n : ℕ) (a : Addr)
      → addr_parse inet bs hostname_max_len ≡ ok n a
      → request_parse inet (version ∷ cmd_connect ∷ reserved ∷ bs) ≡ ok n a
  unfolding request_parse
  request_parse-connect reserved [] n a e =
      let none_read : addr_parse inet [] hostname_max_len ≡ out_of_bounds =
        (addr_parse-in_bounds inet [] hostname_max_len).1 (inl refl) in
      absurd (cc (sym none_read ∙ e))
  request_parse-connect reserved (b ∷ bs) n a e = ground (arith, e)

  -- A read in the state handshake, on the server side, that gives a request to connect: the
  -- version, the command, a reserved byte, and the encoding of a domain name (below 256 bytes, no
  -- 0 byte) and a port of 16 bits, with any bytes behind it. The bytes are handed over, the state
  -- stays, and the destination that is stored is that encoding.
  pub conn_read-request :
      (c : TcpConn) (s : Socks5) (n : ℕ) (w : World) (reserved : ℕ) (host : List ℕ) (port : ℕ)
      (addr rest : List ℕ)
      → s.is_client ≡ false
      → s.state ≡ handshake
      → host_parse host ≡ atyp_domain
      → c_string host ≡ host
      → length host < 256
      → port < 65536
      → addr_init inet host port ≡ some addr
      → let (r, c', w') = tcp_read os c n w in
        r ≡ Input.bytes (version ∷ cmd_connect ∷ reserved ∷ (addr ++ rest))
        → conn_read inet os c s n w ≡ (r, c', record s { addrbuf_dest = some addr }, w')
  unfolding conn_read on_bytes on_request conn_init
  conn_read-request c s n w reserved host port addr rest server state name str small p16 enc got =
      let (b, e, parsed) =
        addr_parse-addr_init inet host port rest hostname_max_len name small p16 in
      let same : b ≡ addr = ground arith in
      let at : addr_parse inet (addr ++ rest) hostname_max_len
          ≡ ok (length addr) (domain host port) =
        rw same at parsed in
      rw
        (
          got,
          server,
          state,
          request_parse-connect reserved (addr ++ rest) (length addr) (domain host port) at,
          str,
          enc,
        )
        refl
