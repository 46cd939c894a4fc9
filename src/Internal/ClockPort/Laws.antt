-- ===== src/Internal/ClockPort/Laws.antt =====
-- Which port the network clock gets for each port of the server.
use nsvr.Prelude.{ℕ, ◌+◌, ◌-◌, ◌^◌, ◌≡◌, arith, ltb, if◌then◌else◌}
use nsvr.Prelude.Int.{ℤ, pos, negsuc, IsShort}
use nsvr.Internal.ClockPort.{get_clock_port}

-- The port number that the socket functions read from a `short`.
abbrev pub wire_port : ℤ → ℕ
wire_port (pos n) = n
wire_port (negsuc n) = 2 ^ 16 - 1 - n

-- For each value of a short, read as a port number, the clock's port is the next port number, and
-- 0 for the port 65535: the guard for 65535 never applies.
pub wire_port-get_clock_port :
    (server_port : ℤ)
    → IsShort server_port
    → wire_port (get_clock_port server_port)
      ≡ (if ltb (wire_port server_port) 65535 then wire_port server_port + 1 else 0)
unfolding get_clock_port
wire_port-get_clock_port (pos n) h = ground arith
wire_port-get_clock_port (negsuc n) h = ground arith
