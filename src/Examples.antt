-- ===== src/Examples.antt =====
-- Concrete inputs: a ring of 4096 bytes, a VPU5 core, its sessions and its messages, with the
-- theorems at work on them; an idle VPU, the buffers of a decoder and the votes of two sessions.
pub mod Data
mod Rings
mod Cores
mod Sessions
mod States
mod Packets
mod Streams
mod Idle
mod Memory
mod Clients
