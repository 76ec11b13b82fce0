-- ===== src/Module/Remote.antt =====
-- What `tcpRemoteNew` of src/app/module/module_tcp.c makes where nothing fails.
use xsocks.Base.{ℕ, ◌≡◌, refl, [], some, true, false}
use xsocks.Base.Int.{ℤ, negsuc}
use xsocks.Tcp.Frame.{set_timeout-Kept, tcp_init-fd}
use xsocks.TcpShadowsocks
use xsocks.TcpShadowsocks.{Shadowsocks}
use xsocks.Conn.{Env, Conn, Kind, raw, shadowsocks, raw_type, shadowsocks_type, conn_new}
use xsocks.Module.{Client, tcp_remote_new}

module _ (env : Env) where
  open env use {crypto}

  -- the client has the remote, and its read buffer is as it was
  pub record Remote (new_kind : Kind crypto) (fd : ℕ) (client client' : Client crypto)
      : Type 0 where
    pub remote : Conn crypto
    pub set : client'.remote ≡ some remote
    pub remote_fd : remote.base.fd ≡ fd
    pub remote_kind : remote.kind ≡ new_kind
    pub kind : client'.conn.kind ≡ client.conn.kind
    pub rbuf : client'.conn.base.rbuf ≡ client.conn.base.rbuf
    pub rbuf_off : client'.conn.base.rbuf_off ≡ client.conn.base.rbuf_off

  pub tcp_remote_new-Remote :
      (fd : ℕ) (timeout : ℤ) (client : Client crypto)
      → (client' : Client crypto) × (tcp_remote_new env true raw_type (some fd) true timeout client
          ≡ some client')
        × Remote raw fd client client'
  unfolding tcp_remote_new conn_new
  tcp_remote_new-Remote fd timeout client =
      let kept = set_timeout-Kept client.conn.base (negsuc 0) in
      (
        _,
        refl,
        record {
          remote = _;
          set = refl;
          remote_fd = tcp_init-fd _;
          remote_kind = refl;
          kind = refl;
          rbuf = kept.rbuf;
          rbuf_off = kept.rbuf_off;
        },
      )

  -- `tcpShadowsocksConn` as `tcpShadowsocksConnNew` makes it
  abbrev pub fresh : Shadowsocks crypto
  fresh = record {
    state = TcpShadowsocks.init;
    tmp_buf = [];
    tmp_buf_off = 0;
    addrbuf_dest = [];
    e_ctx = crypto.ctx_init true;
    d_ctx = crypto.ctx_init false;
  }

  pub tcp_remote_new_secure :
      (fd : ℕ) (timeout : ℤ) (client : Client crypto)
      → (client' : Client crypto) × (tcp_remote_new env true shadowsocks_type
            (some fd)
            true
            timeout
            client
          ≡ some client')
        × Remote (shadowsocks fresh) fd client client'
  unfolding tcp_remote_new conn_new TcpShadowsocks.conn_new
  tcp_remote_new_secure fd timeout client =
      let kept = set_timeout-Kept client.conn.base (negsuc 0) in
      (
        _,
        refl,
        record {
          remote = _;
          set = refl;
          remote_fd = tcp_init-fd _;
          remote_kind = refl;
          kind = refl;
          rbuf = kept.rbuf;
          rbuf_off = kept.rbuf_off;
        },
      )
