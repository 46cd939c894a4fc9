-- ===== src/Tests.antt =====
-- The theorems at concrete data: one library of constant answers, and objects in use.
mod World
mod Packets
mod Players
mod Networks
mod Sessions
mod Groups
mod Lifetimes
mod Sounds
