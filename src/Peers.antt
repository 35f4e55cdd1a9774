-- ===== src/Peers.antt =====
-- The devices on the pads of host/pe_host/peers.py: `Peer`, `Environment` and `PadCapture`.
pub mod Uart
pub mod Spi
pub mod I2c
pub mod Pads
