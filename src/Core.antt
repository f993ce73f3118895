-- ===== src/Core.antt =====
-- The Core context (app/models.py, sentinel_core): its tables, the outside world that the handlers
-- call, the request with its database transaction, and what an HTTP request carries.
mod Tables
mod Externals
mod Request
mod Secret
mod Client
mod Inversion
mod Kept
pub use Tables.*
pub use Externals.*
pub use Request.*
unfoldable pub use Client.*
pub use Inversion.*
pub use Kept.*
unfoldable pub use Secret.*
