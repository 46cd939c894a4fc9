-- ===== src/Internal.antt =====
-- source/nsvr/nsvr_internal.cpp: the text helpers, the port of the network clock, and the helpers
-- that call the libraries.
pub mod Text
pub mod ClockPort
pub mod Scope
pub mod System
pub mod Buffer
