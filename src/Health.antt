-- ===== src/Health.antt =====
-- collectors/source_health.py: the health of a source and the coverage of a registry.
mod Runs
mod Evaluation
mod Coverage
mod Registry
pub mod Liveness
pub mod Sufficiency
pub mod Snapshot
unfoldable pub use Runs.*
unfoldable pub use Evaluation.*
unfoldable pub use Coverage.*
unfoldable pub use Registry.*
