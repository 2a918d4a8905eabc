-- ===== src/Claims.antt =====
-- analysis/claims.py: the semantic checks on claims, documents and events.
mod Gates
mod Settlement
mod Consistency
pub mod Settled
pub mod Firewall
pub mod Corroborated
pub mod Proposed
unfoldable pub use Gates.*
unfoldable pub use Settlement.*
unfoldable pub use Consistency.*
