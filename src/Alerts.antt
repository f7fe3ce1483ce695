-- ===== src/Alerts.antt =====
-- The regime detection path of packages/core/fx_core/alerts.
pub mod Regime
pub mod Trigger
pub mod Baseline
pub mod Seasonality
pub mod Detector
