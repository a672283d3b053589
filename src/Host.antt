-- ===== src/Host.antt =====
-- host/okdude: the tool that uploads a program from the host.
pub mod Decoder
pub mod Upload
pub mod Receive
pub mod Promotion
pub mod Suboot
