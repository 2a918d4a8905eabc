-- ===== src/Acquisition.antt =====
-- analysis/provenance.py: collection runs, their manifests, and the binding of a record to the run
-- that acquired it.
mod Chain
mod Binding
mod Review
mod Digest
mod Manifest
pub mod Bound
pub mod BoundIff
pub mod Sound
pub mod Hashes
pub mod Unique
pub mod Acquired
pub mod Termination
pub mod Governing
pub mod Hops
pub mod Refinement
pub mod Order
unfoldable pub use Chain.*
unfoldable pub use Binding.*
unfoldable pub use Review.*
unfoldable pub use Digest.*
unfoldable pub use Manifest.*
