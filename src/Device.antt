-- ===== src/Device.antt =====
-- The run-time support of the LEN5 device: sw/device.
pub mod Memory
pub mod Syscall
