-- ===== src/Cmd.antt =====
-- cmd and pkg/cmd: the command line client.
pub mod Ui
pub mod Flags
pub mod Containers
pub mod Session
pub mod Stdin
pub mod Sync
pub mod Commands
pub mod Provider
