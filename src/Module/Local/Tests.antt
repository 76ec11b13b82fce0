-- ===== src/Module/Local/Tests.antt =====
-- A request to the local program, proxied and bypassed: src/app/local.c.
use xsocks.Base.{◌≡◌, refl, true, false, [], ◌∷◌, Option, none, some, arith}
use xsocks.Base.Int.{pos}
use xsocks.Net.Loopback.{Wire}
use xsocks.Socks5.{atyp_domain}
use xsocks.Socks5.Example.{name, encoded, name-domain, name-c_string, name-encoded}
use xsocks.TcpSocks5
use xsocks.TcpSocks5.{Socks5}
use xsocks.Conn.{raw, socks5, shadowsocks}
use xsocks.Conn.Loopback.{crypto, env, conn}
use xsocks.Module.{Client, Counts}
use xsocks.Module.Remote.{fresh}
use xsocks.Module.Local.{Outside, Acl, black_list, bypass, is_bypass, resolved, on_read}
use xsocks.Module.Local.Request.{Opened, on_read-bypassed, on_read-proxied}

-- every connecting gives descriptor 1
abbrev outside : Option Acl → Outside env
outside acl = record {
  acl = acl;
  remote_addr = b's' ∷ [];
  remote_port = 8388;
  dial = λ host port w. (some 1, w);
  timeout = pos 60;
}

-- a list that has every host
abbrev all_hosts : Option Acl
all_hosts = some (record { match_host = λ host. pos 1; mode = black_list; resolve = λ host. none })

abbrev asked : Socks5
asked = record { is_client = false; state = TcpSocks5.stream; addrbuf_dest = some encoded }

abbrev client : Client crypto
client = record { conn = record { base = conn 0 true []; kind = socks5 asked }; remote = none }

abbrev one_client : Counts
one_client = record { client_count = pos 1; remote_count = pos 0 }

abbrev quiet : Wire
quiet = record { pending = []; burst = 1; sent = []; room = 9; refill = 9 }

straight : bypass all_hosts atyp_domain name ≡ true
unfolding bypass is_bypass resolved
straight = refl

through_server : bypass none atyp_domain name ≡ false
unfolding bypass
through_server = refl

on_read-bypassed_example :
    Opened env
      (outside all_hosts)
      raw
      1
      (on_read env (outside all_hosts) asked client one_client quiet)
      one_client
      quiet
on_read-bypassed_example =
    on_read-bypassed env (outside all_hosts) asked client one_client quiet name 443 encoded 1 refl
      refl refl name-domain name-c_string (omega arith) (omega arith) name-encoded straight refl

on_read-proxied_example :
    Opened env
      (outside none)
      (shadowsocks (record (fresh env) { addrbuf_dest = encoded }))
      1
      (on_read env (outside none) asked client one_client quiet)
      one_client
      quiet
on_read-proxied_example =
    on_read-proxied env (outside none) asked client one_client quiet name 443 encoded 1 refl refl
      refl name-domain name-c_string (omega arith) (omega arith) name-encoded through_server refl
