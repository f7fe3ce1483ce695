-- ===== src/Worker.antt =====
-- apps/worker/fx_worker: the tick log's way into the table of minute bars.
pub mod Table
pub mod Persister
pub mod AlertPersister
