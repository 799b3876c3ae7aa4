-- ===== src/Ir.antt =====
-- rs_bindings_from_cc/ir.rs: the description of a C++ API that the bindings are generated from.
pub mod Lookup
pub mod Returns
pub mod Scopes
pub mod Reopened
pub mod Overloads
mod Tests
mod Types
mod Items
mod Names
mod Build
mod Queries
mod Accessors
mod Enclosing
mod Labels
mod Crates
pub mod LabelNames
pub use Types.*
pub use Items.*
pub use Names.*
unfoldable pub use Build.*
unfoldable pub use Queries.*
unfoldable pub use Accessors.*
unfoldable pub use Enclosing.*
unfoldable pub use Labels.*
unfoldable pub use Crates.*
