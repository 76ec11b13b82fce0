-- ===== src/Udp/Send.antt =====
-- `udpWrite` of src/lib/protocol/udp.c where the kernel takes the whole datagram, and the timer.
use xsocks.Base.{ℕ, ◌≡◌, List, Option, length, arith, ==_iff}
use xsocks.Net.{SysWrite, Output}
use xsocks.Net.Resolve.{Info}
use xsocks.Udp.{UdpOs, UdpConn, net_udp_write, udp_write, udp_add_time, udp_del_time}

pub udp_add_time-fd : (c : UdpConn) → (udp_add_time (udp_del_time c)).fd ≡ c.fd
unfolding udp_add_time
udp_add_time-fd c = ground arith

module _ (os : UdpOs) where
  open os use {sys, sendto}
  open sys use {World}

  pub udp_write-sent :
      (c : UdpConn) (buf : List ℕ) (sa : Option Info) (w w' : World)
      → sendto c.fd buf sa w ≡ (SysWrite.wrote (length buf), w')
      → udp_write os c buf sa w ≡ (Output.count (length buf), c, w')
  unfolding udp_write net_udp_write
  udp_write-sent c buf sa w w' e = ground (arith, e, ==_iff (length buf) (length buf))
