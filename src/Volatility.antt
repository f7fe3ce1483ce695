-- ===== src/Volatility.antt =====
-- Bars and their additive statistics: packages/core/fx_core/models.py and
-- packages/core/fx_core/volatility.
pub mod Bars
pub mod Window
pub mod Welford
pub mod Ewma
pub mod Ticks
mod Tests
