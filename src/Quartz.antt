-- ===== src/Quartz.antt =====
-- device/quartz: parts of the kernel for the ARM1176.
pub mod Pmm
pub mod TicketLock
