-- ===== src/Base.antt =====
-- The names that every module shares: the libraries', passed on, and those of the children
-- for Boolean tests, lists, signed integers, Python's clock types and its floats.
mod Tests
mod Lists
mod Names
pub mod Int
pub mod Result
pub mod Clock
pub mod Float
pub mod Text
pub mod Dict
pub use Names.*
pub use Tests.*
pub use Lists.*
