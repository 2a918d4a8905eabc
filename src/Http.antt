-- ===== src/Http.antt =====
-- collectors/http_client.py: the retrying GET request.
mod Retry
pub mod Bounds
unfoldable pub use Retry.*
