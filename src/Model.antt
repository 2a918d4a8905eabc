-- ===== src/Model.antt =====
-- The records that the analysis reads: the JSON vocabularies as data types, and claims, documents,
-- events and the source registry as records.
mod ClaimTags
mod DocumentTags
mod EventTags
mod Records
mod Events
mod Manifests
pub use ClaimTags.*
pub use DocumentTags.*
pub use EventTags.*
unfoldable pub use Records.*
pub use Events.*
unfoldable pub use Manifests.*
