-- ===== src/Functions.antt =====
-- rs_bindings_from_cc/generate_bindings/generate_func.rs: whether a function needs a thunk, and the
-- traits and `impl` blocks of generated functions.
mod Thunks
mod Traits
pub mod Printed
mod Tests
unfoldable pub use Thunks.*
unfoldable pub use Traits.*
