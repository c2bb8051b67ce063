-- ===== src/Gateway.antt =====
-- src/runtime: the transport gateway, the shell that spawns its sessions and the provider router.
pub mod Lines
pub mod Provider
pub mod Shell
pub mod Sessions
