-- ===== src/CodeGen/Keywords.antt =====
-- The table of C++ keywords of code_gen_utils.rs.
use crubit4rust.Base.{List, [], ◌∷◌, String, Bool, contains, string_eq}

-- `RESERVED_CC_KEYWORDS`
unfoldable pub reserved_cc_keywords : List String
reserved_cc_keywords =
    "alignas" ∷ "alignof" ∷ "and" ∷ "and_eq" ∷ "asm" ∷ "atomic_cancel" ∷ "atomic_commit"
    ∷ "atomic_noexcept" ∷ "auto" ∷ "bitand" ∷ "bitor" ∷ "bool" ∷ "break" ∷ "case" ∷ "catch" ∷ "char"
    ∷ "char8_t" ∷ "char16_t" ∷ "char32_t" ∷ "class" ∷ "compl" ∷ "concept" ∷ "const" ∷ "consteval"
    ∷ "constexpr" ∷ "constinit" ∷ "const_cast" ∷ "continue" ∷ "co_await" ∷ "co_return" ∷ "co_yield"
    ∷ "decltype" ∷ "default" ∷ "delete" ∷ "do" ∷ "double" ∷ "dynamic_cast" ∷ "else" ∷ "enum"
    ∷ "explicit" ∷ "export" ∷ "extern" ∷ "false" ∷ "float" ∷ "for" ∷ "friend" ∷ "goto" ∷ "if"
    ∷ "inline" ∷ "int" ∷ "long" ∷ "mutable" ∷ "namespace" ∷ "new" ∷ "noexcept" ∷ "not" ∷ "not_eq"
    ∷ "nullptr" ∷ "operator" ∷ "or" ∷ "or_eq" ∷ "private" ∷ "protected" ∷ "public" ∷ "reflexpr"
    ∷ "register" ∷ "reinterpret_cast" ∷ "requires" ∷ "return" ∷ "short" ∷ "signed" ∷ "sizeof"
    ∷ "static" ∷ "static_assert" ∷ "static_cast" ∷ "struct" ∷ "switch" ∷ "synchronized" ∷ "template"
    ∷ "this" ∷ "thread_local" ∷ "throw" ∷ "true" ∷ "try" ∷ "typedef" ∷ "typeid" ∷ "typename"
    ∷ "union" ∷ "unsigned" ∷ "using" ∷ "virtual" ∷ "void" ∷ "volatile" ∷ "wchar_t" ∷ "while" ∷ "xor"
    ∷ "xor_eq" ∷ []

unfoldable pub is_cpp_reserved_keyword : String → Bool
unfolding reserved_cc_keywords
is_cpp_reserved_keyword ident = contains reserved_cc_keywords ident
