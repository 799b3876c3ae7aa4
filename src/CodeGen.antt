-- ===== src/CodeGen.antt =====
-- common/code_gen_utils.rs: identifiers, name escaping, namespace qualifiers and `#include`s.
-- A token stream is the list of its tokens, a group's delimiters included; an operator of several
-- characters, such as `::`, is one token. A text that the code walks is the list of its code
-- points. What comes from the crates `unicode_ident`, `syn` and `proc_macro2` is a parameter.
mod Keywords
mod Chars
mod Idents
mod Includes
pub mod Escape
pub mod Qualifiers
pub mod Ascii
mod Tests
unfoldable pub use Keywords.{reserved_cc_keywords, is_cpp_reserved_keyword}
unfoldable pub use Chars.*
unfoldable pub use Idents.*
unfoldable pub use Includes.*
