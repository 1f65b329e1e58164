-- ===== src/Tests/Sockets.antt =====
-- Runs of class socket.
use watched_agent.Base.{◌++◌, ◌∷◌, ◌≡◌, refl, arith, some, codes, inl, inr}
use watched_agent.Socket.{SockAddr, InRange, Socket, set_sock_from6, from_source, get_source}
use watched_agent.Socket.Proc.{hex4, proc_addr6, set_sock_from6-proc}
use watched_agent.Socket.Url.{IsType, shown, from_source-get_source}

abbrev pub raw_addr : SockAddr
raw_addr = record {
  port = 7;
  ip1 = 1;
  ip2 = 2;
  ip3 = 3;
  ip4 = 4;
  ip5 = 5;
  ip6 = 6;
  ip7 = 7;
  ip8 = 8;
}

abbrev pub addr6 : SockAddr
addr6 = record {
  port = 443;
  ip1 = 8193;
  ip2 = 3512;
  ip3 = 0;
  ip4 = 0;
  ip5 = 0;
  ip6 = 0;
  ip7 = 0;
  ip8 = 1;
}

abbrev pub socket6 : Socket
socket6 = record { id = 77; type = codes "tcp6"; source = addr6; dest = raw_addr }

pub addr6-InRange : InRange addr6
addr6-InRange = record {
  port = omega arith;
  ip1 = omega arith;
  ip2 = omega arith;
  ip3 = omega arith;
  ip4 = omega arith;
  ip5 = omega arith;
  ip6 = omega arith;
  ip7 = omega arith;
  ip8 = omega arith;
}

set_sock_from6-proc_example :
    set_sock_from6 (proc_addr6 addr6 ++ b':' ∷ hex4 443) raw_addr ≡ some addr6
set_sock_from6-proc_example = set_sock_from6-proc addr6 raw_addr addr6-InRange

pub socket6-IsType : IsType socket6.type
socket6-IsType = inr (inr (inl refl))

from_source-get_source_example :
    from_source socket6 (get_source socket6)
    ≡ some (record socket6 { type = codes "tcp6"; source = shown (codes "tcp6") addr6 addr6 })
from_source-get_source_example = from_source-get_source socket6 socket6 socket6-IsType addr6-InRange
