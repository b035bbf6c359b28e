-- ===== src/Rtl.antt =====
-- The hardware description of the core: rtl.
pub mod RrArbiter
pub mod IntRegstat
pub mod FairArbiter
mod Tests
pub mod Rob
pub mod Ras
pub mod PrioEnc
pub mod Fifo
pub mod Counter
pub mod SpillCell
pub mod Handshake
pub mod Alu
