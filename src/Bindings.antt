-- ===== src/Bindings.antt =====
-- rs_bindings_from_cc/generate_bindings/lib.rs: which items have bindings, and which features they
-- need.
mod Missing
mod Items
mod Has
mod Types
mod CppNames
pub mod Parents
pub mod Named
pub mod Pointers
pub mod Enabled
mod Tests
unfoldable pub use Missing.*
unfoldable pub use Items.*
unfoldable pub use Has.*
unfoldable pub use Types.*
unfoldable pub use CppNames.*
