-- ===== src/Layout.antt =====
-- rs_bindings_from_cc/generate_bindings/generate_record.rs: the fields of the struct or union that
-- stands for a C++ record, with the blobs of bytes that keep them at their offsets.
mod Fields
mod Spans
mod Definitions
mod Members
pub mod Entries
pub mod Names
pub mod Positions
pub mod Offsets
pub mod Counts
pub mod Kept
pub mod Inherited
mod MemberTests
mod Tests
unfoldable pub use Fields.*
unfoldable pub use Spans.*
unfoldable pub use Definitions.*
unfoldable pub use Members.*
