-- ===== src/Socks5/Bounds.antt =====
-- Which bytes `socks5AddrParse` reads, and how large its results are.
use xsocks.Base.{
  ℕ, ◌+◌, ◌≤◌, ◌<◌, ◌≡◌, refl, ◌↔◌, ◌⊎◌, inl, inr, Bool, List, [], ◌∷◌, some, length, get_elem?-lt,
  arith, ◌==◌, ◌*◌,
}
use xsocks.Socks5.{
  Inet, ip_len, atyp_ipv6, atyp_domain, Addr, out_of_bounds, read_port, parse_ip, parse_domain,
  addr_parse, hostname_max_len,
}

read_port-some : (buf : List ℕ) (i : ℕ) → i + 1 < length buf → (p : ℕ) × (read_port buf i ≡ some p)
unfolding read_port
read_port-some buf i h =
    let (hi, e) = get_elem?-lt buf i (omega arith) in
    let (lo, e') = get_elem?-lt buf (i + 1) h in (hi * 256 + lo, ground arith)

module _ (inet : Inet) where
  parse_ip-in_bounds :
      (v6 : Bool) (atyp : ℕ) (buf : List ℕ) (n : ℕ)
      → parse_ip inet v6 atyp buf n ≡ out_of_bounds
      → ⊥
  unfolding parse_ip
  parse_ip-in_bounds v6 atyp buf n e = ground (arith, read_port-some buf (ip_len v6))

  parse_domain-in_bounds :
      (atyp : ℕ) (buf : List ℕ) → parse_domain inet atyp buf ≡ out_of_bounds → buf ≡ []
  unfolding parse_domain
  parse_domain-in_bounds atyp [] e = refl
  parse_domain-in_bounds atyp (n ∷ buf) e = ground (arith, read_port-some buf n)

  domain_alone : (t : ℕ) → parse_domain inet t [] ≡ out_of_bounds
  unfolding parse_domain
  domain_alone t = refl

  -- `socks5AddrParse` reads behind the end of its buffer exactly when the buffer is empty, or is
  -- the type byte of a domain name alone (it then reads the length byte).
  pub addr_parse-in_bounds :
      (buf : List ℕ) (n : ℕ)
      → (addr_parse inet buf n ≡ out_of_bounds) ↔ ((buf ≡ []) ⊎ (buf ≡ atyp_domain ∷ []))
  unfolding addr_parse
  addr_parse-in_bounds [] n = (λ e. inl refl, λ e. refl)
  addr_parse-in_bounds (t ∷ buf) n = (
    λ e. ground (arith, parse_ip-in_bounds (t == atyp_ipv6) t buf n, parse_domain-in_bounds t buf),
    λ d. elim d [ inl d ↦ cc | inr d ↦ ground (arith, domain_alone t) ],
  )

  -- the sizes that a result may have, for an input of `len` bytes
  record Sized (len : ℕ) (r : ℕ) (a : Addr) : Type 0 where
    within : r ≤ len
    short : length a.host < hostname_max_len
    port_16 : a.port < 65536

  -- The documented behaviour of inet_ntop: the text fits the buffer, with its final 0.
  abbrev pub Fits : Type 0
  Fits = (v6 : Bool) (bs : List ℕ) (n : ℕ) (t : List ℕ) → inet.ntop v6 bs n ≡ some t → length t < n
