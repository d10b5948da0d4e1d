-- ===== src/Compiler/Types/Create.antt =====
-- compiler/types.c: the functions that find a type in the table or make it.
use tiny_cplus.Prelude.{
  ℕ, suc, Bool, true, false, not, ◌&&◌, ◌||◌, List, [], ◌∷◌, ◌++◌, Option, none, some, ◌==◌,
  if◌then◌else◌, length,
}
use tiny_cplus.Prelude.Text.{codes, same, decimal}
use tiny_cplus.Compiler.Loop.{Result, ok, and_then}
use tiny_cplus.Compiler.Types
use tiny_cplus.Compiler.Types.{
  TypeKind, void, i32, u8, i16, i64, u32, u64, string, ptr, array, tuple, named, enum, auto, index,
  is, CType, zeroed, Table, fetch, update, add_type, primitive_name, primitive_cname, lookup,
}
use tiny_cplus.Compiler.Types.Equal.{equal_types, equal_items, type_equal}

abbrev pub known : Option ℕ → Table → ℕ × Table → ℕ × Table
known none c made = made
known (some a) c made = (a, c)

unfoldable pub type_primitive : TypeKind → Table → ℕ × Table
type_primitive k c =
    let (a, d) =
      add_type (λ id. record (zeroed k id) { name = primitive_name k; cname = primitive_cname k })
        c in
    known (lookup (index k) c.builtin) c (a, record d { builtin = (index k, a) ∷ d.builtin })

-- The type that a table of names gives.
unfoldable pub kind_of : List ℕ → List (List ℕ × TypeKind) → Option TypeKind
kind_of name [] = none
kind_of name ((n, k) ∷ rest) = if same name n then some k else kind_of name rest

abbrev pub primitives : List (List ℕ × TypeKind)
primitives =
    (codes "void", void)
    ∷ (codes "bool", TypeKind.bool)
    ∷ (codes "i8", TypeKind.i8)
    ∷ (codes "u8", u8)
    ∷ (codes "i16", i16)
    ∷ (codes "u16", TypeKind.u16)
    ∷ (codes "i32", i32)
    ∷ (codes "u32", u32)
    ∷ (codes "i64", i64)
    ∷ (codes "u64", u64)
    ∷ (codes "float", TypeKind.float)
    ∷ (codes "double", TypeKind.double)
    ∷ (codes "char", TypeKind.char)
    ∷ (codes "string", string)
    ∷ (codes "null", TypeKind.null)
    ∷ []

-- The table of aliases, and "var", which is asked for next.
abbrev pub aliases : List (List ℕ × TypeKind)
aliases =
    (codes "int", i32)
    ∷ (codes "uint", u32)
    ∷ (codes "byte", u8)
    ∷ (codes "short", i16)
    ∷ (codes "long", i64)
    ∷ (codes "ulong", u64)
    ∷ (codes "Error", i32)
    ∷ (codes "StringView", string)
    ∷ (codes "var", auto)
    ∷ []

-- The view of u64 that keeps the spelling of size_t.
unfoldable pub type_size : Table → ℕ × Table
type_size c =
    let (base, d) = type_primitive u64 c in
    known (Types.find (λ t. is t.kind u64 && same t.name (codes "size_t")) c.types) c (
      length d.types,
      record d {
        types =
            record (fetch d.types base) { name = codes "size_t"; cname = codes "size_t" } ∷ d.types;
      },
    )

abbrev pub no_items : List ℕ → Bool
no_items [] = true
no_items (x ∷ xs) = false

unfoldable pub type_class : List ℕ → Table → ℕ × Table
type_class name c =
    known
      (Types.find (λ t. (is t.kind named || is t.kind enum) && no_items t.items && same t.name name)
        c.types)
      c (add_type (λ id. record (zeroed named id) { name = name; cname = codes "tc_" ++ name }) c)

unfoldable pub type_alias : List ℕ → Option TypeKind → Table → ℕ × Table
type_alias name none c = type_class name c
type_alias name (some k) c = type_primitive k c

unfoldable pub named_as : List ℕ → Option TypeKind → Table → ℕ × Table
named_as name (some k) c = type_primitive k c
named_as name none c =
    if same name (codes "size_t") then type_size c else type_alias name (kind_of name aliases) c

unfoldable pub type_named : List ℕ → Table → ℕ × Table
type_named name c = named_as name (kind_of name primitives) c

-- What a type of a derived kind is called.
unfoldable pub derived_name : TypeKind → List ℕ → ℕ → List ℕ
derived_name k base count =
    if is k ptr
    then base ++ codes "*"
    else if is k array
    then base ++ (codes "[" ++ (decimal count ++ codes "]"))
    else codes "Slice<" ++ (base ++ codes ">")

unfoldable pub derived_cname : TypeKind → List ℕ → ℕ → List ℕ
derived_cname k base id =
    if is k ptr
    then base ++ codes " *"
    else (if is k array then codes "tc_array_" else codes "tc_slice_") ++ decimal id

abbrev pub same_base : Option ℕ → Option ℕ → Bool
same_base none none = true
same_base none (some b) = false
same_base (some a) none = false
same_base (some a) (some b) = a == b

unfoldable pub type_derive : TypeKind → ℕ → ℕ → Table → ℕ × Table
type_derive k base count c =
    known
      (Types.find (λ t. is t.kind k && same_base t.base (some base) && t.count == count) c.types) c
      (add_type
        (λ id. record (zeroed k id) {
          base = some base;
          count = count;
          name = derived_name k (fetch c.types base).name count;
          cname = derived_cname k (fetch c.types base).cname id;
        })
        c)

-- The newest type that a comparison accepts.
unfoldable pub search_types : (CType → Result Bool) → List CType → Result (Option ℕ)
search_types accepts [] = ok none
search_types accepts (t ∷ ts) =
    and_then (accepts t) (λ b. if b then ok (some (length ts)) else search_types accepts ts)

-- Each step of a comparison goes to a lower address, so the number of types is fuel enough.
unfoldable pub type_tuple : List ℕ → Table → Result (ℕ × Table)
type_tuple items c =
    let equal = type_equal (suc (length c.types)) c.types in
    and_then
      (search_types (λ t. equal_types equal t (record (zeroed tuple 0) { items = items })) c.types)
      (λ found. ok (
        known found c (
          add_type
            (λ id. record (zeroed tuple id) {
              items = items;
              name = codes "tc_tuple_" ++ decimal id;
              cname = codes "tc_tuple_" ++ decimal id;
            })
            c)))

unfoldable pub is_generic : List ℕ → CType → Bool
is_generic name t = is t.kind named && not (no_items t.items) && same t.name name

unfoldable pub type_generic : List ℕ → List ℕ → Table → Result (ℕ × Table)
type_generic name items c =
    let equal = type_equal (suc (length c.types)) c.types in
    and_then
      (search_types (λ t. if is_generic name t then equal_items equal t.items items else ok false)
        c.types)
      (λ found. ok (
        known found c (
          add_type
            (λ id. record (zeroed named id) {
              name = name;
              items = items;
              cname = codes "tc_" ++ (name ++ (codes "_" ++ decimal id));
            })
            c)))

unfoldable pub type_const : ℕ → Table → ℕ × Table
type_const base c =
    let b = fetch c.types base in
    if b.qualified
    then (base, c)
    else known
        (Types.find
          (λ t.
            t.qualified
            && is t.kind b.kind
            && same_base t.base b.base
            && same t.name (codes "const " ++ b.name))
          c.types)
        c
        (add_type
          (λ id. record b {
            id = id;
            qualified = true;
            name = codes "const " ++ b.name;
            cname = codes "const " ++ b.cname;
          })
          c)
