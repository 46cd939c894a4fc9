-- ===== src/Internal/ClockPort.antt =====
-- `getClockPort` of source/nsvr/nsvr_internal.cpp. A `short` is an integer in its range; the sum
-- and the difference are computed as `int` and converted back.
pub mod Laws
use nsvr.Prelude.{if◌then◌else◌}
use nsvr.Prelude.Int.{ℤ, pos, negsuc, ◌+ℤ◌, ◌==ℤ◌, to_short}

unfoldable pub get_clock_port : ℤ → ℤ
unfolding to_short
get_clock_port server_port =
    if server_port ==ℤ pos 65535
    then to_short (server_port +ℤ negsuc 0)
    else to_short (server_port +ℤ pos 1)
