-- ===== src/Socks5/Tests.antt =====
-- Addresses of the two kinds on concrete bytes: src/lib/protocol/socks5.c.
use xsocks.Base.{
  ℕ, ◌≡◌, ◌≤◌, ◌<◌, ◌↔◌, ◌⊎◌, refl, Bool, true, false, List, [], ◌∷◌, ◌++◌, none, some, length,
  take, All, arith, ltb, if◌then◌else◌,
}
use xsocks.Socks5.{
  Inet, Pton, parsed, invalid, Addr, out_of_bounds, ok, atyp_domain, atyp_ipv4, ip_len, host_parse,
  is_ipv6_addr, is_numeric, addr_init, ip_bytes, addr_parse, parse_domain, read_port, finish,
  port_bytes, addr_max_len,
}
use xsocks.Socks5.Bounds.{addr_parse-in_bounds}
use xsocks.Socks5.RoundTrip.{
  addr_parse-addr_init, addr_parse-addr_init_ip, addr_parse-encoded, atyp_of,
}
use xsocks.Socks5.Encoding.{length-addr_init-le}

-- "1.1" is the only address that this inet_pton knows.
abbrev short_ip : List ℕ
short_ip = b'1' ∷ b'.' ∷ b'1' ∷ []

abbrev one : List ℕ
one = 1 ∷ 0 ∷ 0 ∷ 1 ∷ []

abbrev zeros : Bool → List ℕ
zeros true = 0 ∷ 0 ∷ 0 ∷ 0 ∷ 0 ∷ 0 ∷ 0 ∷ 0 ∷ 0 ∷ 0 ∷ 0 ∷ 0 ∷ 0 ∷ 0 ∷ 0 ∷ 0 ∷ []
zeros false = 0 ∷ 0 ∷ 0 ∷ 0 ∷ []

abbrev inet_pton : Bool → Pton
inet_pton true = invalid
inet_pton false = parsed one

abbrev inet : Inet
inet = record {
  pton = λ v6 host. inet_pton v6;
  ntop = λ v6 addr n. if ltb 3 n then some short_ip else none;
  stack = zeros;
}

-- "a.b"
abbrev name : List ℕ
name = b'a' ∷ b'.' ∷ b'b' ∷ []

-- the encoding of "a.b" and port 443, and a byte behind it
abbrev encoded : List ℕ
encoded = 3 ∷ 3 ∷ b'a' ∷ b'.' ∷ b'b' ∷ 1 ∷ 187 ∷ 9 ∷ []

abbrev decoded : Addr
decoded = record { atyp = atyp_domain; host = name; host_len = 3; port = 443 }

name-domain : host_parse name ≡ atyp_domain
unfolding host_parse is_ipv6_addr is_numeric
name-domain = refl

ip-numeric : host_parse short_ip ≡ atyp_ipv4
unfolding host_parse is_ipv6_addr is_numeric
ip-numeric = refl

encoded-decoded : addr_parse inet encoded 256 ≡ ok 7 decoded
unfolding addr_parse parse_domain read_port finish
encoded-decoded = refl

encoded-bytes : All (λ b. b < 256) encoded
encoded-bytes = ground arith

addr_parse-addr_init_example :
    (b : List ℕ) × (addr_init inet name 443 ≡ some b)
    × (addr_parse inet (b ++ (9 ∷ [])) 256 ≡ ok (length b) decoded)
addr_parse-addr_init_example =
    addr_parse-addr_init inet name 443 (9 ∷ []) 256 name-domain (omega arith) (omega arith)

addr_parse-addr_init_ip_example :
    (b : List ℕ) × (addr_init inet short_ip 80 ≡ some b)
    × (addr_parse inet (b ++ []) 256
        ≡ ok
            (length b)
            (record { atyp = atyp_of false; host = short_ip; host_len = ip_len false; port = 80 }))
addr_parse-addr_init_ip_example =
    addr_parse-addr_init_ip inet false short_ip one 80 [] 256 ip-numeric refl refl refl
      (omega arith)

addr_parse-encoded_example :
    take 7 encoded ≡ atyp_domain ∷ length decoded.host ∷ (decoded.host ++ port_bytes decoded.port)
addr_parse-encoded_example =
    addr_parse-encoded inet encoded 256 7 decoded encoded-bytes encoded-decoded refl

addr_parse-in_bounds_example :
    (addr_parse inet encoded 256 ≡ out_of_bounds) ↔ ((encoded ≡ []) ⊎ (encoded ≡ atyp_domain ∷ []))
addr_parse-in_bounds_example = addr_parse-in_bounds inet encoded 256

pton_len : (v6 : Bool) (addr : List ℕ) → inet_pton v6 ≡ parsed addr → length addr ≡ ip_len v6
pton_len true addr e = cc
pton_len false addr e = ground arith

zeros_len : (v6 : Bool) → length (zeros v6) ≡ ip_len v6
zeros_len true = refl
zeros_len false = refl

ip-encoded : addr_init inet short_ip 80 ≡ some (1 ∷ 1 ∷ 0 ∷ 0 ∷ 1 ∷ 0 ∷ 80 ∷ [])
unfolding addr_init host_parse is_ipv6_addr is_numeric ip_bytes
ip-encoded = refl

length-addr_init-le_example : 7 ≤ addr_max_len
length-addr_init-le_example =
    length-addr_init-le inet short_ip 80 (1 ∷ 1 ∷ 0 ∷ 0 ∷ 1 ∷ 0 ∷ 80 ∷ []) pton_len zeros_len
      (omega arith) ip-encoded
