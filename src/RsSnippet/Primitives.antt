-- ===== src/RsSnippet/Primitives.antt =====
-- `PrimitiveType` of rs_snippet.rs: its names in the IR, and its tokens.
use crubit4rust.Base.{List, [], ◌∷◌, Option, none, some, String, string_eq, if◌then◌else◌}
use crubit4rust.CodeGen.{TokenStream, ident, punct}
use crubit4rust.RsSnippet.Kinds.{
  PrimitiveType, unit_, bool_, u8, i8, u16, i16, u32, i32, u64, i64, usize, isize, f32, f64, c_char,
  c_uchar, c_schar, c_ushort, c_short, c_uint, c_int, c_ulong, c_long, c_ulonglong, c_longlong,
}

-- `::core::ffi::` and a name
abbrev pub core_ffi : String → TokenStream
core_ffi name = punct "::" ∷ ident "core" ∷ punct "::" ∷ ident "ffi" ∷ punct "::" ∷ ident name ∷ []

-- The arms of `PrimitiveType::from_str`.
abbrev pub primitive_names : List (String × PrimitiveType)
primitive_names =
    ("()", unit_)
    ∷ ("bool", bool_)
    ∷ ("u8", u8)
    ∷ ("i8", i8)
    ∷ ("u16", u16)
    ∷ ("i16", i16)
    ∷ ("u32", u32)
    ∷ ("i32", i32)
    ∷ ("u64", u64)
    ∷ ("i64", i64)
    ∷ ("usize", usize)
    ∷ ("isize", isize)
    ∷ ("f32", f32)
    ∷ ("f64", f64)
    ∷ ("::core::ffi::c_char", c_char)
    ∷ ("::core::ffi::c_uchar", c_uchar)
    ∷ ("::core::ffi::c_schar", c_schar)
    ∷ ("::core::ffi::c_ushort", c_ushort)
    ∷ ("::core::ffi::c_short", c_short)
    ∷ ("::core::ffi::c_uint", c_uint)
    ∷ ("::core::ffi::c_int", c_int)
    ∷ ("::core::ffi::c_ulong", c_ulong)
    ∷ ("::core::ffi::c_long", c_long)
    ∷ ("::core::ffi::c_ulonglong", c_ulonglong)
    ∷ ("::core::ffi::c_longlong", c_longlong)
    ∷ []

-- The first arm whose pattern is the string.
unfoldable pub first_arm : List (String × PrimitiveType) → String → Option PrimitiveType
first_arm [] s = none
first_arm ((pattern_, t) ∷ arms) s = if string_eq.beq pattern_ s then some t else first_arm arms s

-- `PrimitiveType::from_str`
unfoldable pub from_str : String → Option PrimitiveType
unfolding first_arm
from_str s = first_arm primitive_names s

-- `ToTokens for PrimitiveType`
unfoldable pub primitive_tokens : PrimitiveType → TokenStream
primitive_tokens unit_ = core_ffi "c_void"
primitive_tokens bool_ = ident "bool" ∷ []
primitive_tokens u8 = ident "u8" ∷ []
primitive_tokens i8 = ident "i8" ∷ []
primitive_tokens u16 = ident "u16" ∷ []
primitive_tokens i16 = ident "i16" ∷ []
primitive_tokens u32 = ident "u32" ∷ []
primitive_tokens i32 = ident "i32" ∷ []
primitive_tokens u64 = ident "u64" ∷ []
primitive_tokens i64 = ident "i64" ∷ []
primitive_tokens usize = ident "usize" ∷ []
primitive_tokens isize = ident "isize" ∷ []
primitive_tokens f32 = ident "f32" ∷ []
primitive_tokens f64 = ident "f64" ∷ []
primitive_tokens c_char = core_ffi "c_char"
primitive_tokens c_uchar = core_ffi "c_uchar"
primitive_tokens c_schar = core_ffi "c_schar"
primitive_tokens c_ushort = core_ffi "c_ushort"
primitive_tokens c_short = core_ffi "c_short"
primitive_tokens c_uint = core_ffi "c_uint"
primitive_tokens c_int = core_ffi "c_int"
primitive_tokens c_ulong = core_ffi "c_ulong"
primitive_tokens c_long = core_ffi "c_long"
primitive_tokens c_ulonglong = core_ffi "c_ulonglong"
primitive_tokens c_longlong = core_ffi "c_longlong"
