-- ===== src/Platform.antt =====
-- packages/platform/fx_platform: what the processes share.
pub mod Lease
