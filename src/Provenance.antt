-- ===== src/Provenance.antt =====
-- analysis/provenance.py: whether one record may carry current intelligence.
mod Records
mod Decision
mod Series
pub mod Homogeneous
pub mod Publishable
pub mod Uses
unfoldable pub use Records.*
unfoldable pub use Decision.*
unfoldable pub use Series.*
