-- ===== src/Situations.antt =====
-- analysis/situations.py and the lane index of analysis/reference.py: the situation of a mode.
mod Lanes
mod Gate
mod Rules
mod Confidence
mod Situation
pub mod Links
pub mod Clock
pub mod Admission
pub mod Status
pub mod Accounting
pub mod Quiet
unfoldable pub use Lanes.*
unfoldable pub use Gate.*
unfoldable pub use Rules.*
unfoldable pub use Confidence.*
unfoldable pub use Situation.*
