-- ===== src/LineUnit.antt =====
-- The line unit of an engine, after test/model/line_unit.py: the CRC register, the bit ticker, the stuffing
-- counters, the transfers and the line instructions. The step that puts them together is not modelled.
pub mod Crc
pub mod Mirror
pub mod State
pub mod Ticks
pub mod Transfer
pub mod Counters
pub mod Lockstep
pub mod Instructions
pub mod Classic
pub mod Owned
