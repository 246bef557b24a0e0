-- ===== src/Registry.antt =====
-- packages/registry/src: the packages of device modules.
pub mod Semver
