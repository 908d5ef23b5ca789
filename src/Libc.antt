-- ===== src/Libc.antt =====
-- libc/src: the functions that user programs and the kernel share.
pub mod Time
pub mod Memory
pub mod Strings
pub mod Numbers
pub mod Tokens
pub mod Environment
