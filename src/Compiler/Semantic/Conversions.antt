-- ===== src/Compiler/Semantic/Conversions.antt =====
-- The common type of two numbers, by the usual arithmetic conversions of C.
use tiny_cplus.Prelude.{ℕ, ◌≡◌, refl, ap, ◌∙◌, Bool, true, false, ◌||◌, ltb, if◌then◌else◌}
use tiny_cplus.Compiler.Types.{
  TypeKind, bool, i8, u8, i16, u16, i32, u32, i64, u64, float, double, char, enum, index, is,
}
use tiny_cplus.Compiler.Semantic.{promote, numeric_common}

-- The numbers of the language
pub data Number : TypeKind → Type 0 where
  boolean : Number bool
  signed_8 : Number i8
  unsigned_8 : Number u8
  signed_16 : Number i16
  unsigned_16 : Number u16
  signed_32 : Number i32
  unsigned_32 : Number u32
  signed_64 : Number i64
  unsigned_64 : Number u64
  short_single : Number float
  precise : Number double
  character : Number char
  enumeration : Number enum

-- The integer promotions of the C standard (2011), 6.3.1.1: what fits into int becomes int.
abbrev pub promoted : {k : TypeKind} → Number k → TypeKind
promoted boolean = i32
promoted signed_8 = i32
promoted unsigned_8 = i32
promoted signed_16 = i32
promoted unsigned_16 = i32
promoted signed_32 = i32
promoted unsigned_32 = u32
promoted signed_64 = i64
promoted unsigned_64 = u64
promoted short_single = float
promoted precise = double
promoted character = i32
promoted enumeration = i32

-- What a promoted kind is: an integer of so many bits, with a sign or without, or a float.
pub data Shape : TypeKind → Type 0 where
  integer_32 : Shape i32
  natural_32 : Shape u32
  integer_64 : Shape i64
  natural_64 : Shape u64
  short_float : Shape float
  long_float : Shape double

abbrev shape : {k : TypeKind} (n : Number k) → Shape (promoted n)
shape boolean = integer_32
shape signed_8 = integer_32
shape unsigned_8 = integer_32
shape signed_16 = integer_32
shape unsigned_16 = integer_32
shape signed_32 = integer_32
shape unsigned_32 = natural_32
shape signed_64 = integer_64
shape unsigned_64 = natural_64
shape short_single = short_float
shape precise = long_float
shape character = integer_32
shape enumeration = integer_32

abbrev pub bits : TypeKind → ℕ
bits i32 = 32
bits u32 = 32
bits _ = 64

abbrev pub unsigned : TypeKind → Bool
unsigned u32 = true
unsigned u64 = true
unsigned _ = false

-- The usual arithmetic conversions of the C standard (2011), 6.3.1.8, for promoted kinds: double,
-- then float, then of the same sign the wider, and of different signs the unsigned one unless the
-- signed one is wider.
abbrev pub usual : TypeKind → TypeKind → TypeKind
usual a b =
    if is a double || is b double
    then double
    else if is a float || is b float
    then float
    else if ltb (bits a) (bits b)
    then b
    else if ltb (bits b) (bits a)
    then a
    else if unsigned a
    then a
    else b

promote-promoted : {k : TypeKind} (n : Number k) → promote k ≡ promoted n
unfolding promote
promote-promoted boolean = refl
promote-promoted signed_8 = refl
promote-promoted unsigned_8 = refl
promote-promoted signed_16 = refl
promote-promoted unsigned_16 = refl
promote-promoted signed_32 = refl
promote-promoted unsigned_32 = refl
promote-promoted signed_64 = refl
promote-promoted unsigned_64 = refl
promote-promoted short_single = refl
promote-promoted precise = refl
promote-promoted character = refl
promote-promoted enumeration = refl

-- `numeric_common` after its promotions
abbrev chosen : TypeKind → TypeKind → TypeKind
chosen p q =
    if is p double || is q double
    then double
    else if is p float || is q float
    then float
    else if ltb (index q) (index p)
    then p
    else q

-- To prove something of every promoted kind, prove it of the six.
by_shape :
    (P : TypeKind → Type 0) {q : TypeKind}
    → P i32
    → P u32
    → P i64
    → P u64
    → P float
    → P double
    → Shape q
    → P q
by_shape P a b c d e f integer_32 = a
by_shape P a b c d e f natural_32 = b
by_shape P a b c d e f integer_64 = c
by_shape P a b c d e f natural_64 = d
by_shape P a b c d e f short_float = e
by_shape P a b c d e f long_float = f

chosen-usual : {p q : TypeKind} → Shape p → Shape q → chosen p q ≡ usual p q
chosen-usual {q = q} s =
    by_shape (λ p. Shape q → chosen p q ≡ usual p q)
      (by_shape (λ z. chosen i32 z ≡ usual i32 z) refl refl refl refl refl refl)
      (by_shape (λ z. chosen u32 z ≡ usual u32 z) refl refl refl refl refl refl)
      (by_shape (λ z. chosen i64 z ≡ usual i64 z) refl refl refl refl refl refl)
      (by_shape (λ z. chosen u64 z ≡ usual u64 z) refl refl refl refl refl refl)
      (by_shape (λ z. chosen float z ≡ usual float z) refl refl refl refl refl refl)
      (by_shape (λ z. chosen double z ≡ usual double z) refl refl refl refl refl refl) s

-- For any two kinds of numbers `numeric_common` gives the kind that the usual arithmetic conversions
-- of C give for their promotions.
pub numeric_common_lem :
    {a b : TypeKind} (m : Number a) (n : Number b)
    → numeric_common a b ≡ usual (promoted m) (promoted n)
unfolding numeric_common
numeric_common_lem {a} {b} m n =
    ap (λ p. chosen p (promote b)) (promote-promoted m)
    ∙ ap (chosen (promoted m)) (promote-promoted n)
    ∙ chosen-usual (shape m) (shape n)
