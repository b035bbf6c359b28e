-- ===== src/Coremark.antt =====
-- The CoreMark benchmark: sw/benchmarks/coremark/src/all.
pub mod Crc
pub mod LinkedList
pub mod Parseval
pub mod Matrix
pub mod StateMachine
