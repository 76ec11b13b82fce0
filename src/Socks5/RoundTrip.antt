-- ===== src/Socks5/RoundTrip.antt =====
-- `socks5AddrInit` and `socks5AddrParse` are inverse to one another, as far as they are.
use xsocks.Base.{
  ℕ, zero, suc, ◌+◌, ◌%◌, ◌≤◌, ◌<◌, ◌≡◌, refl, ap, sym, Bool, true, false, List, [], ◌∷◌, ◌++◌,
  append_assoc, some, length, length-append, get_elem?, get_elem?-append, take, take-length_append,
  length-take, All, All-get_elem?, inl, inr, arith, ◌==◌, Option-cases,
}
use xsocks.Socks5.{
  Inet, parsed, ip_len, atyp_ipv4, atyp_ipv6, atyp_domain, Addr, ok, read_port, port_bytes,
  parse_ip, parse_domain, addr_parse, addr_init, ip_bytes, host_parse,
}

get_elem?-behind :
    (xs ys : List ℕ) (i j : ℕ) → i ≡ length xs + j → get_elem? (xs ++ ys) i ≡ get_elem? ys j
get_elem?-behind xs ys i j e = rw e (get_elem?-append xs ys j)

-- a port written behind `xs` is read back
read_port-append :
    (xs rest : List ℕ) (i p : ℕ)
    → i ≡ length xs
    → p < 65536
    → read_port (xs ++ (port_bytes p ++ rest)) i ≡ some p
unfolding read_port
read_port-append xs rest i p e h = ground (
  arith,
  get_elem?-behind xs (port_bytes p ++ rest) i 0,
  get_elem?-behind xs (port_bytes p ++ rest) (i + 1) 1,
)

abbrev pub atyp_of : Bool → ℕ
atyp_of true = atyp_ipv6
atyp_of false = atyp_ipv4

take-two :
    (xs : List ℕ) (i a b : ℕ)
    → get_elem? xs i ≡ some a
    → get_elem? xs (suc i) ≡ some b
    → take (suc (suc i)) xs ≡ take i xs ++ (a ∷ b ∷ [])
take-two [] i a b p q = cc
take-two (x ∷ []) zero a b p q = cc
take-two (x ∷ y ∷ xs) zero a b p q = ground arith
take-two (x ∷ xs) (suc i) a b p q = ap (λ t. x ∷ t) (take-two xs i a b p q)

-- the bytes of a port that was read
take-read_port :
    (xs : List ℕ) (i p : ℕ)
    → All (λ b. b < 256) xs
    → read_port xs i ≡ some p
    → take (suc (suc i)) xs ≡ take i xs ++ port_bytes p
unfolding read_port
take-read_port xs i p h e = elim (Option-cases (get_elem? xs i)) [
  | inl eh ↦ ground arith
  | inr (hi, eh) ↦ elim (Option-cases (get_elem? xs (i + 1))) [
    | inl el ↦ ground arith
    | inr (lo, el) ↦
        let bh : hi < 256 = All-get_elem? (λ b. b < 256) xs i hi h eh in
        let bl : lo < 256 = All-get_elem? (λ b. b < 256) xs (i + 1) lo h el in
        ground (arith, take-two xs i hi lo eh)
  ]
]

module _ (inet : Inet) where
  abbrev address : ℕ → List ℕ → ℕ → ℕ → Addr
  address atyp host len port = record { atyp = atyp; host = host; host_len = len; port = port }

  parse_domain-append :
      (atyp : ℕ) (host rest : List ℕ) (port : ℕ)
      → port < 65536
      → parse_domain inet atyp (length host ∷ (host ++ (port_bytes port ++ rest)))
        ≡ ok (length host + 4) (address atyp host (length host) port)
  unfolding parse_domain
  parse_domain-append atyp host rest port h = ground (
    arith,
    read_port-append host rest (length host) port refl h,
    take-length_append host (port_bytes port ++ rest),
    length-append host (port_bytes port ++ rest),
  )

  addr_init-domain :
      (host : List ℕ) (port : ℕ)
      → host_parse host ≡ atyp_domain
      → addr_init inet host port
        ≡ some (atyp_domain ∷ ((length host % 256) ∷ host) ++ port_bytes port)
  unfolding addr_init
  addr_init-domain host port e = ground arith

  -- A host of at most 255 bytes that is a domain name and a port of 16 bits that `socks5AddrInit`
  -- encodes are what `socks5AddrParse` decodes, whatever follows in the buffer, and its result is
  -- the length of the encoding.
  pub addr_parse-addr_init :
      (host : List ℕ) (port : ℕ) (rest : List ℕ) (n : ℕ)
      → host_parse host ≡ atyp_domain
      → length host < 256
      → port < 65536
      → (b : List ℕ) × (addr_init inet host port ≡ some b)
        × (addr_parse inet (b ++ rest) n
            ≡ ok
                (length b)
                (record { atyp = atyp_domain; host = host; host_len = length host; port = port }))
  unfolding addr_parse
  addr_parse-addr_init host port rest n e small h = (
    atyp_domain ∷ length host ∷ (host ++ port_bytes port),
    ground (arith, addr_init-domain host port e),
    ground (
      arith,
      parse_domain-append atyp_domain host rest port h,
      append_assoc host (port_bytes port) rest,
      length-append host (port_bytes port),
    ),
  )

  parse_ip-append :
      (v6 : Bool) (atyp : ℕ) (addr host rest : List ℕ) (port n : ℕ)
      → length addr ≡ ip_len v6
      → inet.ntop v6 addr n ≡ some host
      → port < 65536
      → parse_ip inet v6 atyp (addr ++ (port_bytes port ++ rest)) n
        ≡ ok (ip_len v6 + 3) (address atyp host (ip_len v6) port)
  unfolding parse_ip
  parse_ip-append v6 atyp addr host rest port n l e h =
      let behind : List ℕ = port_bytes port ++ rest in
      let head : take (ip_len v6) (addr ++ behind) ≡ addr =
        rw (← l) (take-length_append addr behind) in
      rw head (
        rw e (
          ground (
            arith,
            read_port-append addr rest (ip_len v6) port (sym l) h,
            length-append addr behind,
          )))

  -- An IP address, in a text that inet_pton understands and inet_ntop writes the same way, and a port of
  -- 16 bits that `socks5AddrInit` encodes are what `socks5AddrParse` decodes, whatever follows in the
  -- buffer, and the result is the length of the encoding.
  pub addr_parse-addr_init_ip :
      (v6 : Bool) (host addr : List ℕ) (port : ℕ) (rest : List ℕ) (n : ℕ)
      → host_parse host ≡ atyp_of v6
      → inet.pton v6 host ≡ parsed addr
      → length addr ≡ ip_len v6
      → inet.ntop v6 addr n ≡ some host
      → port < 65536
      → (b : List ℕ) × (addr_init inet host port ≡ some b)
        × (addr_parse inet (b ++ rest) n
            ≡ ok
                (length b)
                (record { atyp = atyp_of v6; host = host; host_len = ip_len v6; port = port }))
  unfolding addr_parse addr_init ip_bytes
  addr_parse-addr_init_ip true host addr port rest n t p l e h = (
    atyp_ipv6 ∷ (addr ++ port_bytes port),
    ground arith,
    ground (
      arith,
      parse_ip-append true atyp_ipv6 addr host rest port n l e h,
      append_assoc addr (port_bytes port) rest,
      length-append addr (port_bytes port),
    ),
  )
  addr_parse-addr_init_ip false host addr port rest n t p l e h = (
    atyp_ipv4 ∷ (addr ++ port_bytes port),
    ground arith,
    ground (
      arith,
      parse_ip-append false atyp_ipv4 addr host rest port n l e h,
      append_assoc addr (port_bytes port) rest,
      length-append addr (port_bytes port),
    ),
  )

  parse_ip-atyp :
      (v6 : Bool) (atyp : ℕ) (buf : List ℕ) (n r : ℕ) (a : Addr)
      → parse_ip inet v6 atyp buf n ≡ ok r a
      → a.atyp ≡ atyp
  unfolding parse_ip
  parse_ip-atyp v6 atyp buf n r a e = ground arith

  parse_domain-encoded :
      (atyp : ℕ) (buf : List ℕ) (r : ℕ) (a : Addr)
      → All (λ b. b < 256) buf
      → parse_domain inet atyp buf ≡ ok r a
      → take r (atyp ∷ buf) ≡ atyp ∷ length a.host ∷ (a.host ++ port_bytes a.port)
  unfolding parse_domain
  parse_domain-encoded atyp [] r a h e = cc
  parse_domain-encoded atyp (n ∷ buf) r a h e =
      let size : r ≡ suc (suc (suc (suc n))) = ground arith in
      let long : n ≤ length buf = ground arith in
      let name : a.host ≡ take n buf = ground arith in
      let port : read_port buf n ≡ some a.port = ground arith in
      let len : length a.host ≡ n = rw name (omega (arith, length-take n buf)) in
      rw (size, len, name) (ap (λ t. atyp ∷ n ∷ t) (take-read_port buf n a.port h.1 port))

  -- When `socks5AddrParse` accepts a domain name in a buffer of bytes, the bytes that it took, as
  -- many as its result says, are the type, the length, the name and the port that it returns.
  pub addr_parse-encoded :
      (buf : List ℕ) (n r : ℕ) (a : Addr)
      → All (λ b. b < 256) buf
      → addr_parse inet buf n ≡ ok r a
      → a.atyp ≡ atyp_domain
      → take r buf ≡ atyp_domain ∷ length a.host ∷ (a.host ++ port_bytes a.port)
  unfolding addr_parse
  addr_parse-encoded [] n r a h e t = cc
  addr_parse-encoded (ty ∷ buf) n r a h e t =
      ground
        (arith, parse_domain-encoded ty buf r a h.1, parse_ip-atyp (ty == atyp_ipv6) ty buf n r a)
