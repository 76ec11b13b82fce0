-- ===== src/Socks5/Encoding.antt =====
-- How large the result of `socks5AddrInit` of src/lib/protocol/socks5.c is.
use xsocks.Base.{
  ℕ, ◌≤◌, ◌<◌, ◌≡◌, refl, Bool, true, false, List, Option, none, some, length, length-append, arith,
}
use xsocks.Socks5.{
  Inet, parsed, ip_len, port_bytes, addr_max_len, addr_init, ip_bytes, prepend, host_parse,
}

module _ (inet : Inet) where
  length-ip_bytes :
      (host : List ℕ)
      → ((v6 : Bool) (addr : List ℕ) → inet.pton v6 host ≡ parsed addr → length addr ≡ ip_len v6)
      → ((v6 : Bool) → length (inet.stack v6) ≡ ip_len v6)
      → (v6 : Bool) (addr : List ℕ) → ip_bytes inet v6 host ≡ some addr
      → length addr ≤ 256
  unfolding ip_bytes
  length-ip_bytes host known left true addr e = ground (arith, known true addr, left true)
  length-ip_bytes host known left false addr e = ground (arith, known false addr, left false)

  length-prepend-le :
      (atyp port : ℕ) (o : Option (List ℕ)) (b : List ℕ)
      → ((addr : List ℕ) → o ≡ some addr → length addr ≤ 256)
      → prepend atyp port o ≡ some b
      → length b ≤ addr_max_len
  length-prepend-le atyp port none b h e = cc
  length-prepend-le atyp port (some addr) b h e =
      ground (arith, h addr refl, length-append addr (port_bytes port))

  -- Where inet_pton gives each address its proper length, and the stack variables have theirs, what
  -- `socks5AddrInit` makes of a host of at most 255 bytes fits the buffer of SOCKS5_ADDR_MAX_LEN bytes
  -- that the shadowsocks connections copy it to.
  pub length-addr_init-le :
      (host : List ℕ) (port : ℕ) (b : List ℕ)
      → ((v6 : Bool) (addr : List ℕ) → inet.pton v6 host ≡ parsed addr → length addr ≡ ip_len v6)
      → ((v6 : Bool) → length (inet.stack v6) ≡ ip_len v6)
      → length host < 256
      → addr_init inet host port ≡ some b
      → length b ≤ addr_max_len
  unfolding addr_init
  length-addr_init-le host port b known left small e = ground (
    arith,
    length-prepend-le (host_parse host) port (ip_bytes inet false host) b
        (length-ip_bytes host known left false),
    length-prepend-le (host_parse host) port (ip_bytes inet true host) b
        (length-ip_bytes host known left true),
    length-append host (port_bytes port),
  )
