-- ===== src/Player.antt =====
-- `Player` of include/nsvr/nsvr_player.hpp and source/nsvr/nsvr_player.cpp. The object is in Object,
-- the methods in the children named after what they do.
pub mod Object
pub mod Volume
pub mod Seek
pub mod Frames
pub mod Control
pub mod Opening
pub mod Update
pub mod Lifetime
pub mod Handshake
