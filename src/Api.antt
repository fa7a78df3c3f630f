-- ===== src/Api.antt =====
-- pkg/api: the gRPC API of the daemon, its models, its server and its client.
pub mod Types
pub mod Defaults
pub mod Mapping
pub mod Server
pub mod Client
pub mod Stream
