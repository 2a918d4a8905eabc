-- ===== src/Attachment.antt =====
-- analysis/attachment.py: attachment proposals, from a claim to a Development.
mod Gate
mod Decision
pub mod Rules
pub mod Outcomes
unfoldable pub use Gate.*
unfoldable pub use Decision.*
