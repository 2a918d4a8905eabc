-- ===== src/Activity.antt =====
-- analysis/events.py: transmission chains, the activity of an event, and event-driven directions.
mod Chain
mod Decision
mod Direction
pub mod Conditions
pub mod Window
pub mod Findings
unfoldable pub use Chain.*
unfoldable pub use Decision.*
unfoldable pub use Direction.*
