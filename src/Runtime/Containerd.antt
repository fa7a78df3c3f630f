-- ===== src/Runtime/Containerd.antt =====
-- pkg/runtime/containerd.go and pkg/runtime/containerd: the client of containerd.
pub mod Env
pub mod Containers
pub mod Pods
pub mod Tasks
pub mod Extensions
pub mod Images
