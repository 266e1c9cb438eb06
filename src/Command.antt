-- ===== src/Command.antt =====
-- src/tpm2_cmds.c: building commands, reading responses, and the commands themselves.
pub mod Builder
pub mod Iter
pub mod Transfer
pub mod Startup
pub mod Sent
pub mod Pcr
pub mod Allocate
