-- ===== src/Tests.antt =====
-- Small inputs, and what the theorems say of them.
pub mod Data
mod Utils
mod Api
mod Runtime
mod Cmd
mod Containerd
mod Session
mod Updates
mod Files
mod Screen
mod Pipes
