-- ===== src/Grading.antt =====
-- analysis/grading.py: the evidence grade of a Development, computed from its claims, and the
-- situation-state proposals.
mod Qualified
mod Grade
mod Override
mod Transitions
pub mod Eligibility
pub mod Proposals
pub mod BaseRank
pub mod Caps
pub mod Monotone
pub mod Confirmed
pub mod Confirming
pub mod Leads
unfoldable pub use Qualified.*
unfoldable pub use Grade.*
unfoldable pub use Override.*
unfoldable pub use Transitions.*
