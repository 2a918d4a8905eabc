-- ===== src/Validation.antt =====
-- analysis/situation_validation.py: the rules on stored events, claims, documents and situations.
mod Rules
mod StatusChange
mod Walk
pub mod Agreement
pub mod Basis
unfoldable pub use Rules.*
unfoldable pub use StatusChange.*
unfoldable pub use Walk.*
