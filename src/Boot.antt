-- ===== src/Boot.antt =====
-- device/okboot: the side of the protocol that runs on the device.
pub mod Window
pub mod Transmit
pub mod Receive
pub mod Writer
pub mod Relocation
pub mod V2
pub mod Timeouts
pub mod Protocol
pub mod Legacy
