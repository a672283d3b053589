-- ===== src/Ppp.antt =====
-- device/antimony/src/net: PPP in HDLC-like framing.
pub mod Hdlc
pub mod Frame
pub mod Lcp
pub mod Ipcp
pub mod Control
pub mod Phy
pub mod Inner
