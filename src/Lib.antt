-- ===== src/Lib.antt =====
-- Crubit: bindings between C++ and Rust. For C++ APIs, an importer writes an intermediate
-- representation (IR) that the generator of Rust bindings reads; for Rust crates, the generator
-- sorts the items, names them in C++ and prints a header. This library is about the Rust code that
-- decides names, lookups, order and merging, which both directions rest on, and about the types, the
-- features and the layout of records that the generator of Rust bindings computes.
--
-- The parts, and the files that model them:
-- - cc_bindings_from_rs/toposort.rs: Toposort. `toposort` builds a graph (`add_nodes`, `add_deps`),
--   and `drain` takes ready nodes from a heap and releases their successors. The generator of C++
--   headers calls it to put each definition before its uses.
-- - rs_bindings_from_cc/ir.rs: Ir. Its types are in Ir/Types and Ir/Items, `make_ir` in Ir/Build,
--   the methods of `IR` in Ir/Queries and Ir/Enclosing, the methods of items in Ir/Accessors, and
--   `BazelLabel` in Ir/Labels. `namespace_qualifier` hands its result to code_gen_utils.rs.
-- - common/code_gen_utils.rs: CodeGen. Identifiers and keywords, the escaping of symbols, namespace
--   qualifiers and `#include` lines.
-- - common/crubit_feature.rs: Features. How sets of feature flags are read; the IR holds a set for
--   each target, and Ir is generic in its type.
-- - common/memoized.rs: Memo. The table behind each memoized query of the generators.
-- - common/error_report.rs and common/arc_anyhow.rs: Errors. The report that counts the errors that
--   the generators meet.
-- - common/token_stream_printer.rs: Printer. Token streams as text, the last step of both
--   generators before the formatters.
-- - rs_bindings_from_cc/generate_bindings/rs_snippet.rs: RsSnippet. `RsTypeKind` is in
--   RsSnippet/Kinds, its predicates in Queries and Records, the iterator in Visit, the features that
--   a type requires in Required, the printers in Tokens and Printers, the constructors in Construct.
-- - rs_bindings_from_cc/generate_bindings/generate_record.rs: Layout. The types of fields in
--   Layout/Fields, `fields_with_bounds` in Spans, `field_definitions` and the head padding in
--   Definitions, the member functions that a record inherits in Members.
-- - rs_bindings_from_cc/generate_bindings/lib.rs: Bindings. `required_crubit_features` of an item is
--   `item_required_features` in Bindings/Missing and Items, `has_bindings` is in Has, `rs_type_kind`
--   in Types, `format_cpp_type` and what it calls in CppNames. They ask RsSnippet for the features
--   of each type, and Ir for the items around an item.
-- - rs_bindings_from_cc/generate_bindings/generate_func.rs: Functions. `can_skip_cc_thunk` and the
--   lookup by arguments in Functions/Thunks, `TraitName` and `ImplKind` in Traits.
-- - support/cc_import/merged_namespaces.rs: MergedNamespaces. The namespaces of all dependencies of
--   a target, merged into one trie.
-- - Base holds what they share: maps, results, keys with an equality, and the tests on numbers.
--
-- Conventions. A panic and an error are both an `err` value of a type of failures. A `usize` is a
-- natural number; the count in an error report wraps around at `2 ^ 64`. A `HashMap` is an
-- association list. A mutation is a function from the old state to the new one.
--
-- Loops and fuel. `drain` gets as many units of fuel as the graph has nodes, each round removes one,
-- and `out_of_fuel` is shown not to occur. `enclosing_namespaces` takes its fuel as an argument,
-- since a cycle of enclosing namespaces would keep the code in its loop; the theorem on it says for
-- which items some fuel is enough. `debug_name` of a function asks for the name of its record with
-- one unit of fuel less, and so does `has_bindings` of an item for the item around it. `dfs_iter`
-- gets as many units as the type has parts, and is shown to visit all of them.
--
-- Parameters for other crates: `flagset` (Features.FlagSets, met by Features/Pair), `unicode_ident`,
-- `syn` and `proc_macro2` (CodeGen.Syntax and the `XID` predicates, met by CodeGen/Ascii),
-- `Regex::replace_all`, `str::replace`, `char::is_numeric` and `char::is_alphabetic`. The memoized
-- query `rs_type_kind`, the text of a type, the derived equality of records and of template
-- arguments, the tokens of a lifetime and the decimal text of a number are parameters too.
--
-- Not modelled: the shapes of generated functions (generate_func.rs), the doc comments and the
-- quoted code around fields and items (rs_bindings_from_cc/generate_bindings), the generator that
-- works on the compiler's own types (cc_bindings_from_rs/bindings.rs), command lines and files,
-- deserialization by serde, `Debug` output, and the C++ parts.
pub mod Base
pub mod Toposort
pub mod Features
pub mod CodeGen
pub mod MergedNamespaces
pub mod Errors
pub mod Ir
pub mod Printer
pub mod Memo
pub mod RsSnippet
pub mod Layout
pub mod Bindings
pub mod Functions
