-- ===== src/Module/Redir/Tests.antt =====
-- A redirected connection, through the server and straight: src/app/redir.c.
use xsocks.Base.{◌≡◌, refl, Bool, true, false, [], ◌∷◌, Option, none, some}
use xsocks.Base.Int.{ℤ, pos, negsuc}
use xsocks.Net.Loopback.{Wire}
use xsocks.Net.Dest.{SockAddr, net_tcp_get_dest_sock_addr, net_ip_present_by_sock_addr}
use xsocks.Socks5.Example.{inet4, ip_text, ip_encoded, ip-encoded}
use xsocks.Conn.{Env, shadowsocks}
use xsocks.Conn.Loopback
use xsocks.Module.{Counts}
use xsocks.Module.Remote.{fresh}
use xsocks.Module.Local.{AclMode, black_list, white_list}
use xsocks.Module.Local.Request.{Opened}
use xsocks.Module.Redir.{Outside, is_direct, destination, as_local, on_accept}
use xsocks.Module.Redir.Request.{with_client, on_accept-Opened}

abbrev env : Env
env = record (Loopback.env) { inet = inet4 }

-- only the level SOL_IP knows the original destination
abbrev original : Bool → Option SockAddr
original true = none
original false = some (record { v6 = false; ip = 1 ∷ 2 ∷ 3 ∷ 4 ∷ []; port = 443 })

abbrev outside : AclMode → ℤ → Outside env
outside mode matched = record {
  acl = record { match_host = λ host. matched; mode = mode; resolve = λ host. none };
  ipv6_first = true;
  remote_addr = b's' ∷ [];
  remote_port = 8388;
  original = λ fd w. original;
  dial = λ host port w. (some 1, w);
  timeout = pos 60;
}

abbrev quiet : Wire
quiet = record { pending = []; burst = 1; sent = []; room = 9; refill = 9 }

abbrev nobody : Counts
nobody = record { client_count = pos 0; remote_count = pos 0 }

listed : is_direct (outside black_list (pos 1)).acl ip_text ≡ true
unfolding is_direct
listed = refl

not_white : is_direct (outside white_list (negsuc 0)).acl ip_text ≡ false
unfolding is_direct
not_white = refl

redirected :
    (mode : AclMode) (matched : ℤ)
    → destination env (outside mode matched) 3 quiet ≡ some (ip_text, 443)
unfolding destination net_tcp_get_dest_sock_addr net_ip_present_by_sock_addr
redirected mode matched = refl

on_accept-Opened_example :
    Opened env
      (as_local env (outside black_list (pos 0)))
      (shadowsocks (record (fresh env) { addrbuf_dest = ip_encoded }))
      1
      (on_accept env (outside black_list (pos 0)) (some 3) nobody quiet)
      (with_client env (outside black_list (pos 0)) nobody)
      quiet
unfolding is_direct
on_accept-Opened_example =
    on_accept-Opened env (outside black_list (pos 0)) 3 nobody quiet ip_text 443 ip_encoded 1
      (redirected black_list (pos 0)) ip-encoded refl
