-- ===== src/Schema.antt =====
-- The data model of scopeproof_core/schemas/models.py: enumerations, records and their equality.
mod Enums
mod Criteria
mod Evidence
mod References
mod Human
mod Junit
mod Reviews
mod Platforms
unfoldable pub use Enums.*
unfoldable pub use Criteria.*
unfoldable pub use Evidence.*
unfoldable pub use References.*
unfoldable pub use Human.*
unfoldable pub use Junit.*
unfoldable pub use Reviews.*
unfoldable pub use Platforms.*
