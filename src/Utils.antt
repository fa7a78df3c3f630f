-- ===== src/Utils.antt =====
-- pkg/utils
pub mod Fqin
pub mod Lists
pub mod Yaml
