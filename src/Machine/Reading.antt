-- ===== src/Machine/Reading.antt =====
-- The RX word that the host reads in nibbles stays at the head of its queue until it is read.
pub mod Heads
pub mod Port
pub mod Written
pub mod Hosting
pub mod Runs
