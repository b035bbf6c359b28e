-- ===== src/Tb.antt =====
-- The test benches under tb/: the logger of tb/verilator, the options of the two programs, the bench
-- of the whole core and the bench of the arithmetic unit.
pub mod Logger
pub mod Options
pub mod Bare
pub mod Alu
