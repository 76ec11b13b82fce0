-- ===== src/Socks5/Example.antt =====
-- A domain name for the tests of the protocols, and its encoding.
use xsocks.Base.{ℕ, ◌≡◌, refl, List, [], ◌∷◌, some, none}
use xsocks.Socks5.{
  Inet, invalid, parsed, ip_bytes, atyp_domain, host_parse, is_ipv6_addr, is_numeric, c_string,
  addr_init,
}

-- no addresses but names
abbrev pub inet : Inet
inet = record { pton = λ v6 host. invalid; ntop = λ v6 addr n. none; stack = λ v6. [] }

-- "a.b", and its encoding with port 443
abbrev pub name : List ℕ
name = b'a' ∷ b'.' ∷ b'b' ∷ []

abbrev pub encoded : List ℕ
encoded = 3 ∷ 3 ∷ b'a' ∷ b'.' ∷ b'b' ∷ 1 ∷ 187 ∷ []

pub name-domain : host_parse name ≡ atyp_domain
unfolding host_parse is_ipv6_addr is_numeric
name-domain = refl

pub name-c_string : c_string name ≡ name
unfolding c_string
name-c_string = refl

pub name-encoded : addr_init inet name 443 ≡ some encoded
unfolding addr_init host_parse is_ipv6_addr is_numeric
name-encoded = refl

-- one address, 1.2.3.4, and its encoding with port 443
abbrev pub ip_text : List ℕ
ip_text = b'1' ∷ b'.' ∷ b'2' ∷ b'.' ∷ b'3' ∷ b'.' ∷ b'4' ∷ []

abbrev pub inet4 : Inet
inet4 = record {
  pton = λ v6 host. parsed (1 ∷ 2 ∷ 3 ∷ 4 ∷ []);
  ntop = λ v6 addr n. some ip_text;
  stack = λ v6. [];
}

abbrev pub ip_encoded : List ℕ
ip_encoded = 1 ∷ 1 ∷ 2 ∷ 3 ∷ 4 ∷ 1 ∷ 187 ∷ []

pub ip-encoded : addr_init inet4 ip_text 443 ≡ some ip_encoded
unfolding addr_init host_parse is_ipv6_addr is_numeric ip_bytes
ip-encoded = refl
