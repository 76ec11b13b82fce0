-- ===== src/Conn/Loopback.antt =====
-- A small environment for tests and examples: the kernel of `Net.Loopback`, a cipher that puts one byte
-- in front of a text.
use xsocks.Base.{ℕ, Bool, true, false, List, [], ◌∷◌, Option, none, some}
use xsocks.Base.Int.{pos}
use xsocks.Net.Loopback.{wire}
use xsocks.Socks5.Example.{inet}
use xsocks.Tcp.{TcpConn, Event, Handlers}
use xsocks.TcpShadowsocks.{Crypto, Decrypted, plain, crypto_error}
use xsocks.Conn.{Env}

abbrev pub decrypted : List ℕ → Decrypted
decrypted [] = crypto_error
decrypted (b ∷ bs) = plain bs

abbrev pub crypto : Crypto
crypto = record {
  Ctx = Unit;
  ctx_init = λ e. tt;
  encrypt = λ bs c. (some (7 ∷ bs), c);
  decrypt = λ bs c. (decrypted bs, c);
}

abbrev pub env : Env
env = record { os = wire; crypto = crypto; inet = inet }

abbrev event : Bool → ℕ → Option Event
event added fd = some (record { id = pos fd; added = added })

abbrev pub closing : Handlers
closing = record {
  on_read = true;
  on_write = false;
  on_timeout = true;
  on_close = true;
  on_error = true;
  on_connect = false;
}

-- a connection with the given read buffer
abbrev pub conn : ℕ → Bool → List ℕ → TcpConn
conn fd reads buffer = record {
  fd = fd;
  flags = record { connecting = false; connected = true; piped = false; closed = false };
  timeout = pos 0;
  re = event reads fd;
  we = event false fd;
  te = none;
  handlers = closing;
  rbuf = buffer;
  rbuf_off = 0;
  wbuf = none;
  wbuf_len = pos 0;
  error = 0;
  fired = [];
  aborted = false;
}
