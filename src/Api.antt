-- ===== src/Api.antt =====
-- apps/api/fx_api: what stands between the bus and a browser.
pub mod Conflator
