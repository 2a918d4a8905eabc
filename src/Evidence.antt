-- ===== src/Evidence.antt =====
-- analysis/claim_evidence_adapter.py: how one claim and its document are graded, and the projection
-- of the two to an event-evidence record.
mod Sources
mod Freshness
mod Authority
mod Strength
mod Projection
pub mod Limitations
pub mod Traceability
pub mod Clock
pub mod TopGrade
unfoldable pub use Sources.*
unfoldable pub use Freshness.*
unfoldable pub use Authority.*
unfoldable pub use Strength.*
unfoldable pub use Projection.*
