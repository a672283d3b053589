-- ===== src/Frame.antt =====
-- common/okboot-common: the framing that the device and the host share.
pub mod Message
pub mod Preamble
pub mod Encode
pub mod Length
pub mod Cobs
pub mod Crc
pub mod Layer
