-- ===== src/Ingestor.antt =====
-- apps/ingestor/fx_ingestor: the connection to the provider.
pub mod Supervisor
pub mod Quota
pub mod Recovery
pub mod Pipeline
pub mod Provider
