-- ===== src/Embench.antt =====
-- The Embench programs: sw/benchmarks/embench.
pub mod Mont64
pub mod Support
pub mod Crc32
pub mod Matmult
