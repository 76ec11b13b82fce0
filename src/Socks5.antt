-- ===== src/Socks5.antt =====
-- src/lib/protocol/socks5.c: the SOCKS5 address (type, host, port) that both protocols carry.
-- A buffer is the list of its `buf_len` bytes, and a read behind its end is the result
-- `out_of_bounds`. inet_pton and inet_ntop are parameters.
pub mod Bounds
pub mod Encoding
pub mod Example
pub mod RoundTrip
mod Tests
use xsocks.Base.{
  ℕ, ◌+◌, ◌*◌, ◌/◌, ◌%◌, Bool, true, false, ◌&&◌, ◌||◌, not, List, [], ◌∷◌, ◌++◌, Option, none,
  some, length, get_elem?, take, drop, ltb, leb, ◌==◌, if◌then◌else◌,
}

abbrev pub atyp_ipv4 : ℕ
atyp_ipv4 = 1

abbrev pub atyp_domain : ℕ
atyp_domain = 3

abbrev pub atyp_ipv6 : ℕ
atyp_ipv6 = 4

-- SOCKS5_ADDR_MAX_LEN
abbrev pub addr_max_len : ℕ
addr_max_len = 259

-- HOSTNAME_MAX_LEN, the size of every `host` buffer
abbrev pub hostname_max_len : ℕ
hostname_max_len = 256

-- What inet_pton returns: 1 with the address, 0 for a text that is none, -1 for an error.
pub data Pton : Type 0 where
  parsed : List ℕ → Pton
  invalid : Pton
  unsupported : Pton

-- inet_pton and inet_ntop of the address family (`true` for AF_INET6; inet_ntop is given the size
-- of its buffer, and returns NULL when that is too small), and what the uninitialised `addr_v4` and
-- `addr_v6` happen to hold.
pub record Inet : Type 0 where
  pub pton : Bool → List ℕ → Pton
  pub ntop : Bool → List ℕ → ℕ → Option (List ℕ)
  pub stack : Bool → List ℕ

-- sizeof(ipV4Addr), sizeof(ipV6Addr)
abbrev pub ip_len : Bool → ℕ
ip_len true = 16
ip_len false = 4

-- `isIPv6Addr` of src/lib/core/net.c
unfoldable pub is_ipv6_addr : List ℕ → Bool
is_ipv6_addr [] = false
is_ipv6_addr (c ∷ cs) = c == b':' || is_ipv6_addr cs

-- A `char *` text: the bytes of a buffer up to the first 0.
pub c_string : List ℕ → List ℕ
c_string [] = []
c_string (c ∷ cs) = if c == 0 then [] else c ∷ c_string cs

-- The loop of `socks5HostParse`: digits and dots only?
pub is_numeric : List ℕ → Bool
is_numeric [] = true
is_numeric (c ∷ cs) = (leb b'0' c && leb c b'9' || c == b'.') && is_numeric cs

-- `socks5HostParse`
pub host_parse : List ℕ → ℕ
unfolding is_ipv6_addr is_numeric
host_parse host =
    if is_ipv6_addr host then atyp_ipv6 else if is_numeric host then atyp_ipv4 else atyp_domain

-- the two bytes of `htons(port)`
abbrev pub port_bytes : ℕ → List ℕ
port_bytes port = (port / 256 % 256) ∷ (port % 256) ∷ []

-- the type in front of an address, and the port behind it
abbrev pub prepend : ℕ → ℕ → Option (List ℕ) → Option (List ℕ)
prepend atyp port none = none
prepend atyp port (some addr) = some (atyp ∷ addr ++ port_bytes port)

module _ (inet : Inet) where
  -- The bytes appended for an IP address. A result 0 of inet_pton is not looked at: the
  -- uninitialised variable is appended.
  pub ip_bytes : Bool → List ℕ → Option (List ℕ)
  ip_bytes v6 host = elim (inet.pton v6 host) [
    | parsed addr ↦ some addr
    | invalid ↦ some (inet.stack v6)
    | unsupported ↦ none
  ]

  -- `socks5AddrInit`; `none` is NULL.
  pub addr_init : List ℕ → ℕ → Option (List ℕ)
  addr_init host port =
      let atyp = host_parse host in
      if atyp == atyp_ipv4
      then prepend atyp port (ip_bytes false host)
      else if atyp == atyp_ipv6
      then prepend atyp port (ip_bytes true host)
      else if atyp == atyp_domain
      then prepend atyp port (some ((length host % 256) ∷ host))
      else none

-- What `socks5AddrParse` stores through its pointers.
pub record Addr : Type 0 where
  pub atyp : ℕ
  pub host : List ℕ
  pub host_len : ℕ
  pub port : ℕ

-- Its result: the number of bytes that the address takes, or SOCKS5_ERR.
pub data Parsed : Type 0 where
  out_of_bounds : Parsed
  err : Parsed
  ok : ℕ → Addr → Parsed

-- `ntohs(*(uint16_t *)(buf + i))`
pub read_port : List ℕ → ℕ → Option ℕ
read_port buf i = elim (get_elem? buf i) [
  | none ↦ none
  | some hi ↦ elim (get_elem? buf (i + 1)) [ none ↦ none | some lo ↦ some (hi * 256 + lo) ]
]

module _ (inet : Inet) where
  finish : ℕ → ℕ → List ℕ → ℕ → Option ℕ → Parsed
  finish len atyp host host_len none = out_of_bounds
  finish len atyp host host_len (some port) =
      ok len (record { atyp = atyp; host = host; host_len = host_len; port = port })

  -- the branch for an IP address; `buf` is behind the type
  pub parse_ip : Bool → ℕ → List ℕ → ℕ → Parsed
  unfolding read_port finish
  parse_ip v6 atyp buf host_size =
      let addr_len = ip_len v6 in
      if ltb (length buf) (addr_len + 2)
      then err
      else elim (inet.ntop v6 (take addr_len buf) host_size) [
        | none ↦ err
        | some host ↦ finish (1 + addr_len + 2) atyp host addr_len (read_port buf addr_len)
      ]

  -- the branch for a domain name: the length byte is read before `buf_len` is looked at
  pub parse_domain : ℕ → List ℕ → Parsed
  unfolding read_port finish
  parse_domain atyp buf = elim (get_elem? buf 0) [
    | none ↦ out_of_bounds
    | some addr_len ↦
        if ltb (length buf) (1 + addr_len + 2)
        then err
        else finish (1 + 1 + addr_len + 2) atyp (take addr_len (drop 1 buf)) addr_len
            (read_port (drop 1 buf) addr_len)
  ]

  -- `socks5AddrParse` with a `host` buffer of `host_size` bytes, as at each of its calls.
  pub addr_parse : List ℕ → ℕ → Parsed
  addr_parse buf host_size = elim (get_elem? buf 0) [
    | none ↦ out_of_bounds
    | some atyp ↦
        let rest = drop 1 buf in
        if atyp == atyp_ipv4 || atyp == atyp_ipv6
        then parse_ip (atyp == atyp_ipv6) atyp rest host_size
        else if atyp == atyp_domain
        then parse_domain atyp rest
        else err
  ]
