-- ===== src/Cli.antt =====
-- internal/cli: the command `proxa logs`.
pub mod Logs
