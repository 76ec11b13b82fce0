-- ===== src/Net/Resolve.antt =====
-- `netUdpGetSockAddrEx` and `netHostPortParse` of src/lib/core/net.c.
use xsocks.Base.{
  ℕ, ◌≡◌, refl, sym, ◌↔◌, Bool, true, false, List, [], ◌∷◌, ◌++◌, Option, none, some, arith, ◌==◌,
  if◌then◌else◌,
}

-- One result of getaddrinfo: the family (`true` for AF_INET6) and the address.
pub record Info : Type 0 where
  pub v6 : Bool
  pub addr : List ℕ

-- NET_ERR, or NET_OK with what was stored in `*sa`, if anything was.
pub data Resolved : Type 0 where
  net_err : Resolved
  net_ok : Option Info → Resolved

abbrev same_family : Bool → Bool → Bool
same_family true b = b
same_family false true = false
same_family false false = true

-- The first loop: the preferred family is stored, and any other goes to `end`. `none` is its regular
-- end, with `p == NULL`.
unfoldable pub preferred : Bool → List Info → Option Resolved
preferred v6 [] = none
preferred v6 (p ∷ ps) = if same_family p.v6 v6 then some (net_ok (some p)) else some (net_ok none)

-- The second loop: the first address of any family.
unfoldable pub any_family : List Info → Resolved
any_family [] = net_err
any_family (p ∷ ps) = net_ok (some p)

-- `netUdpGetSockAddrEx`, where `found` is what getaddrinfo finds, if it does not fail.
unfoldable pub udp_get_sock_addr_ex : Bool → Option (List Info) → Resolved
unfolding preferred any_family
udp_get_sock_addr_ex ipv6_first none = net_err
udp_get_sock_addr_ex ipv6_first (some found) = elim (preferred ipv6_first found) [
  | none ↦ any_family found
  | some r ↦ r
]

-- strrchr(addr, ':') in the characters `addr`: what is before it and behind it
unfoldable pub last_colon : List ℕ → Option (List ℕ × List ℕ)
last_colon [] = none
last_colon (c ∷ cs) = elim (last_colon cs) [
  | some (before, behind) ↦ some (c ∷ before, behind)
  | none ↦ if c == b':' then some ([], cs) else none
]

-- `netHostPortParse` of a text, with `atoi` of the C library: the host and the port, or NET_ERR.
unfoldable pub host_port_parse : (List ℕ → ℕ) → List ℕ → Option (List ℕ × ℕ)
unfolding last_colon
host_port_parse atoi addr = elim (last_colon addr) [
  | none ↦ none
  | some (host, port) ↦ some (host, atoi port)
]

-- no colon in the text
abbrev pub has_colon : List ℕ → Bool
has_colon [] = false
has_colon (c ∷ cs) = if c == b':' then true else has_colon cs

no_colon : (cs : List ℕ) → has_colon cs ≡ false → last_colon cs ≡ none
unfolding last_colon
no_colon [] h = refl
no_colon (c ∷ cs) h = ground (arith, no_colon cs)

colon_behind :
    (host port : List ℕ)
    → has_colon port ≡ false
    → last_colon (host ++ (b':' ∷ port)) ≡ some (host, port)
unfolding last_colon
colon_behind [] port h = ground (arith, no_colon port h)
colon_behind (c ∷ host) port h = ground (arith, colon_behind host port h)

-- A host, a colon and a port without a colon are taken apart again, also where the host has colons.
pub host_port_parse-joined :
    (atoi : List ℕ → ℕ) (host port : List ℕ)
    → has_colon port ≡ false
    → host_port_parse atoi (host ++ (b':' ∷ port)) ≡ some (host, atoi port)
unfolding host_port_parse
host_port_parse-joined atoi host port h = ground (arith, colon_behind host port h)

family_same : (a b : Bool) → same_family a b ≡ true → a ≡ b
family_same true b e = sym e
family_same false true e = cc
family_same false false e = refl

same_family_refl : (b : Bool) → same_family b b ≡ true
same_family_refl true = refl
same_family_refl false = refl

-- An address is stored exactly where the first result of getaddrinfo has the preferred family, and it is
-- that result: later results of the preferred family, and the fallback to the other one, are never used.
pub udp_get_sock_addr_ex-first :
    (v6 : Bool) (found : Option (List Info)) (a : Info)
    → (udp_get_sock_addr_ex v6 found ≡ net_ok (some a))
      ↔ ((rest : List Info) × (found ≡ some (a ∷ rest)) × (a.v6 ≡ v6))
unfolding udp_get_sock_addr_ex
udp_get_sock_addr_ex-first v6 none a = (λ e. cc, λ (rest, e, f). cc)
udp_get_sock_addr_ex-first v6 (some []) a = (λ e. cc, λ (rest, e, f). cc)
udp_get_sock_addr_ex-first v6 (some (p ∷ ps)) a = (
  λ e. (ps, ground (arith, e), ground (arith, e, family_same p.v6 v6)),
  λ (rest, e, f). ground (arith, e, f, same_family_refl v6),
)
