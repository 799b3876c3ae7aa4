-- ===== src/RsSnippet.antt =====
-- rs_bindings_from_cc/generate_bindings/rs_snippet.rs: the Rust types that stand for C++ types, the
-- questions asked about them, and their tokens.
mod Kinds
mod Primitives
mod Records
mod Queries
mod Visit
mod Required
mod Tokens
mod Printers
mod Construct
pub mod Order
pub mod Missing
pub mod Replaced
pub mod Copies
pub mod Spelling
mod Tests
unfoldable pub use Kinds.*
unfoldable pub use Primitives.*
unfoldable pub use Records.*
unfoldable pub use Queries.*
unfoldable pub use Visit.*
unfoldable pub use Required.*
unfoldable pub use Tokens.*
unfoldable pub use Printers.*
unfoldable pub use Construct.*
