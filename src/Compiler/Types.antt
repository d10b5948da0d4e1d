-- ===== src/Compiler/Types.antt =====
-- compiler/types.c: the table of types, newest first. A type is known by its address, its place in
-- the table counted from the oldest; NULL is none, and an empty list of items is NULL too.
pub mod Equal
pub mod Create
pub mod Closed
pub mod Finishes
pub mod Keeps
pub mod Change
pub mod Again
use tiny_cplus.Prelude.{
  ℕ, ◌+◌, Bool, true, false, not, ◌&&◌, ◌||◌, List, [], ◌∷◌, ◌++◌, Option, none, some, ltb, leb,
  ◌==◌, if◌then◌else◌, length,
}
use tiny_cplus.Prelude.Text.{codes, same, decimal}

pub data TypeKind : Type 0 where
  void bool i8 u8 i16 u16 i32 u32 i64 u64 float double char string null : TypeKind
  ptr array slice tuple func closure named enum auto : TypeKind

-- The numbers of the enum.
abbrev pub index : TypeKind → ℕ
index void = 0
index bool = 1
index i8 = 2
index u8 = 3
index i16 = 4
index u16 = 5
index i32 = 6
index u32 = 7
index i64 = 8
index u64 = 9
index float = 10
index double = 11
index char = 12
index string = 13
index null = 14
index ptr = 15
index array = 16
index slice = 17
index tuple = 18
index func = 19
index closure = 20
index named = 21
index enum = 22
index auto = 23

abbrev pub is : TypeKind → TypeKind → Bool
is k j = index k == index j

-- `Type`, less `next`, which the table's order stands for, and `is_const` and `alias`, which
-- types.c does not use. `decl` is the number of a node.
pub record CType : Type 0 where
  pub kind : TypeKind
  pub name : List ℕ
  pub cname : List ℕ
  pub base : Option ℕ
  pub items : List ℕ
  pub count : ℕ
  pub id : ℕ
  pub qualified : Bool
  pub callconv : ℕ
  pub decl : Option ℕ

-- A type as `add_type` leaves it: zeroed, with its kind and number.
abbrev pub zeroed : TypeKind → ℕ → CType
zeroed k id = record {
  kind = k;
  name = [];
  cname = [];
  base = none;
  items = [];
  count = 0;
  id = id;
  qualified = false;
  callconv = 0;
  decl = none;
}

-- The fields of `Context` that types.c uses; `builtin` lists the addresses of the primitive types.
pub record Table : Type 0 where
  pub types : List CType
  pub builtin : List (ℕ × ℕ)
  pub next_id : ℕ

-- The type at an address.
unfoldable pub fetch : List CType → ℕ → CType
fetch [] a = zeroed void 0
fetch (t ∷ ts) a = if a == length ts then t else fetch ts a

unfoldable pub update : List CType → ℕ → (CType → CType) → List CType
update [] a f = []
update (t ∷ ts) a f = if a == length ts then f t ∷ ts else t ∷ update ts a f

-- The newest type that passes a test.
unfoldable pub find : (CType → Bool) → List CType → Option ℕ
find p [] = none
find p (t ∷ ts) = if p t then some (length ts) else find p ts

-- `add_type`, with the fields that its caller sets then.
unfoldable pub add_type : (ℕ → CType) → Table → ℕ × Table
add_type fields c =
    (length c.types, record c { types = fields (c.next_id + 1) ∷ c.types; next_id = c.next_id + 1 })

abbrev pub primitive_name : TypeKind → List ℕ
primitive_name void = codes "void"
primitive_name bool = codes "bool"
primitive_name i8 = codes "i8"
primitive_name u8 = codes "u8"
primitive_name i16 = codes "i16"
primitive_name u16 = codes "u16"
primitive_name i32 = codes "i32"
primitive_name u32 = codes "u32"
primitive_name i64 = codes "i64"
primitive_name u64 = codes "u64"
primitive_name float = codes "float"
primitive_name double = codes "double"
primitive_name char = codes "char"
primitive_name string = codes "string"
primitive_name null = codes "null"
primitive_name _ = codes "var"

abbrev pub primitive_cname : TypeKind → List ℕ
primitive_cname void = codes "void"
primitive_cname bool = codes "bool"
primitive_cname i8 = codes "int8_t"
primitive_cname u8 = codes "uint8_t"
primitive_cname i16 = codes "int16_t"
primitive_cname u16 = codes "uint16_t"
primitive_cname i32 = codes "int32_t"
primitive_cname u32 = codes "uint32_t"
primitive_cname i64 = codes "int64_t"
primitive_cname u64 = codes "uint64_t"
primitive_cname float = codes "float"
primitive_cname double = codes "double"
primitive_cname char = codes "char"
primitive_cname string = codes "TinyString"
primitive_cname null = codes "void *"
primitive_cname _ = codes "void"

unfoldable pub lookup : ℕ → List (ℕ × ℕ) → Option ℕ
lookup k [] = none
lookup k ((j, a) ∷ rest) = if j == k then some a else lookup k rest

unfoldable pub numeric_kind : TypeKind → Bool
numeric_kind k = is k enum || is k bool || leb 2 (index k) && leb (index k) 12

unfoldable pub type_numeric : List CType → Option ℕ → Bool
unfolding numeric_kind
type_numeric ts none = false
type_numeric ts (some a) = numeric_kind (fetch ts a).kind

unfoldable pub type_integer : List CType → Option ℕ → Bool
unfolding numeric_kind
type_integer ts none = false
type_integer ts (some a) =
    numeric_kind (fetch ts a).kind
    && not (is (fetch ts a).kind float)
    && not (is (fetch ts a).kind double)
