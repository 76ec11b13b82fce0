-- ===== src/Module/EndToEnd/Tests.antt =====
-- A request through both programs on a small kernel, with a cipher that puts one byte in front of the
-- first text of a context.
use xsocks.Base.{ℕ, ◌≡◌, refl, Bool, true, false, List, [], ◌∷◌, ◌++◌, none, some, length, arith}
use xsocks.Base.Int.{pos}
use xsocks.Net.{
  Input, Output, net_tcp_read, net_tcp_write, read_loop, read_result, write_loop, write_result,
}
use xsocks.Net.Loopback.{Wire, wire, wire_posix}
use xsocks.Socks5.{atyp_domain}
use xsocks.Socks5.Example.{inet, name, encoded, name-domain, name-c_string, name-encoded}
use xsocks.Tcp.{add_time}
use xsocks.Tcp.Io.{tcp_read}
use xsocks.Tcp.Frame.{tcp_write-taken}
use xsocks.TcpSocks5
use xsocks.TcpSocks5.{Socks5}
use xsocks.TcpShadowsocks.{Crypto, Decrypted, plain, crypto_error}
use xsocks.TcpShadowsocks.First.{StreamInverse}
use xsocks.Conn.{Env, socks5, shadowsocks, conn_write}
use xsocks.Conn.Loopback.{conn}
use xsocks.Module.{Client, Counts, increment, alive}
use xsocks.Module.Remote.{fresh}
use xsocks.Module.Local
use xsocks.Module.Local.{bypass}
use xsocks.Module.Local.Request.{Opened, on_read-proxied}
use xsocks.Module.Server
use xsocks.Module.Server.FirstPacket.{Waiting}
use xsocks.Module.EndToEnd.{Takes, local-server}

abbrev locked : List ℕ → Bool → List ℕ
locked bs true = 7 ∷ bs
locked bs false = bs

abbrev unlocked : List ℕ → Bool → Decrypted
unlocked [] first = crypto_error
unlocked (b ∷ bs) true = plain bs
unlocked (b ∷ bs) false = plain (b ∷ bs)

abbrev cipher : Crypto
cipher = record {
  Ctx = Bool;
  ctx_init = λ e. true;
  encrypt = λ bs c. (some (locked bs c), false);
  decrypt = λ bs c. (unlocked bs c, false);
}

opens :
    (a b ta tb : List ℕ)
    → some (7 ∷ a) ≡ some ta
    → some b ≡ some tb
    → unlocked (ta ++ tb) true ≡ plain (a ++ b)
opens a b [] tb e f = cc
opens a b (t ∷ ta) tb e f = ground (arith, e, f)

abbrev inverse : StreamInverse cipher
inverse = record { decrypt-encrypt = opens }

abbrev env : Env
env = record { os = wire; crypto = cipher; inet = inet }

abbrev near : Local.Outside env
near = record {
  acl = none;
  remote_addr = b's' ∷ [];
  remote_port = 8388;
  dial = λ host port w. (some 1, w);
  timeout = pos 60;
}

abbrev far : Server.Outside env
far = record { blocked = λ atyp host. false; dial = λ host port w. (some 1, w); timeout = pos 60 }

abbrev asked : Socks5
asked = record { is_client = false; state = TcpSocks5.stream; addrbuf_dest = some encoded }

abbrev client : Client cipher
client = record { conn = record { base = conn 0 true []; kind = socks5 asked }; remote = none }

abbrev one_client : Counts
one_client = record { client_count = pos 1; remote_count = pos 0 }

abbrev hi : List ℕ
hi = b'h' ∷ b'i' ∷ []

abbrev with_room : Wire
with_room = record { pending = []; burst = 1; sent = []; room = 20; refill = 9 }

through_server : bypass none atyp_domain name ≡ false
unfolding bypass
through_server = refl

abbrev opened :
    Opened env near
      (shadowsocks (record (fresh env) { addrbuf_dest = encoded }))
      1
      (Local.on_read env near asked client one_client with_room)
      one_client
      with_room
opened =
    on_read-proxied env near asked client one_client with_room name 443 encoded 1 refl refl refl
      name-domain name-c_string (omega arith) (omega arith) name-encoded through_server refl

abbrev sent_all : Wire
sent_all = record with_room { sent = 7 ∷ encoded ++ hi; room = 10 }

abbrev sent_header : Wire
sent_header = record with_room { sent = 7 ∷ encoded; room = 12 }

header_taken :
    net_tcp_write wire 1 (7 ∷ encoded) with_room
    ≡ (Output.count (length (7 ∷ encoded)), sent_header)
unfolding net_tcp_write write_loop write_result
header_taken = refl

body_taken : net_tcp_write wire 1 hi sent_header ≡ (Output.count (length hi), sent_all)
unfolding net_tcp_write write_loop write_result
body_taken = refl

abbrev takes :
    Takes env inverse wire_posix near far opened.remote.base encoded hi
      (7 ∷ encoded)
      hi
      with_room
      sent_all
takes = record {
  c1 = opened.remote.base;
  c2 = opened.remote.base;
  w1 = sent_header;
  header = refl;
  body = refl;
  sent =
      tcp_write-taken wire opened.remote.base 1 (7 ∷ encoded) with_room sent_header 8
        opened.remote_fd header_taken;
  sent_on =
      tcp_write-taken wire opened.remote.base 1 hi sent_header sent_all 2 opened.remote_fd
        body_taken;
}

abbrev buffer : List ℕ
buffer = 0 ∷ 0 ∷ 0 ∷ 0 ∷ 0 ∷ 0 ∷ 0 ∷ 0 ∷ 0 ∷ 0 ∷ 0 ∷ 0 ∷ []

abbrev arriving : Wire
arriving = record { pending = 7 ∷ encoded ++ hi; burst = 20; sent = []; room = 9; refill = 9 }

arriving-read : (tcp_read wire (conn 0 true buffer) 12 arriving).0 ≡ Input.bytes (7 ∷ encoded ++ hi)
unfolding tcp_read net_tcp_read read_loop read_result add_time
arriving-read = refl

local-server_example :
    let accepted : Client cipher = record {
      conn = record { base = conn 0 true buffer; kind = shadowsocks (fresh env) };
      remote = none;
    } in
    ((conn_write env opened.remote hi (pos 2) with_room).2 ≡ sent_all)
    × (sent_all.sent ≡ [] ++ ((7 ∷ encoded) ++ hi))
    × (client' : Client cipher) × (Server.on_read env far accepted one_client arriving ≡ (
      alive client',
      record one_client { remote_count = increment (pos 0) },
      (tcp_read wire (conn 0 true buffer) 12 arriving).2,
    ))
    × Waiting env far 1 hi client'
local-server_example =
    local-server env inverse wire_posix near far name 443 encoded hi name-domain name-c_string
      (omega arith) (omega arith) name-encoded 1
      (Local.on_read env near asked client one_client with_room) one_client with_room opened
      (7 ∷ encoded) hi with_room sent_all takes (conn 0 true buffer) one_client arriving 7
      (encoded ++ hi) 1 refl arriving-read refl refl refl
