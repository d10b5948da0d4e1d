-- ===== src/Compiler/Types/Equal.antt =====
-- compiler/types.c: `type_equal`, on fuel. Its loops over two lists of items are `equal_items`.
use tiny_cplus.Prelude.{
  ℕ, zero, suc, Bool, true, false, not, ◌||◌, List, [], ◌∷◌, Option, none, some, ◌==◌,
  if◌then◌else◌,
}
use tiny_cplus.Prelude.Text.{same}
use tiny_cplus.Compiler.Loop.{Result, stuck, ok, and_then}
use tiny_cplus.Compiler.Types.{
  ptr, array, slice, tuple, func, closure, named, enum, is, CType, fetch,
}

-- How a type compares with another, by their addresses.
abbrev pub Compare : Type 0
Compare = Option ℕ → Option ℕ → Result Bool

abbrev pub both : Result Bool → Result Bool → Result Bool
both r s = and_then r (λ yes_. if yes_ then s else ok false)

unfoldable pub equal_items : Compare → List ℕ → List ℕ → Result Bool
equal_items equal [] [] = ok true
equal_items equal [] (y ∷ ys) = ok false
equal_items equal (x ∷ xs) [] = ok false
equal_items equal (x ∷ xs) (y ∷ ys) = both (equal (some x) (some y)) (equal_items equal xs ys)

abbrev pub same_flag : Bool → Bool → Bool
same_flag true b = b
same_flag false b = not b

-- `type_equal` of two types that are not at the same address.
unfoldable pub equal_types : Compare → CType → CType → Result Bool
equal_types equal a b =
    if not (is a.kind b.kind) || not (same_flag a.qualified b.qualified)
    then ok false
    else if is a.kind ptr || is a.kind array || is a.kind slice
    then if a.count == b.count then equal a.base b.base else ok false
    else if is a.kind enum
    then ok (same a.name b.name)
    else if is a.kind tuple || is a.kind func || is a.kind closure
    then if not (a.callconv == b.callconv)
      then ok false
      else both (equal a.base b.base) (equal_items equal a.items b.items)
    else if is a.kind named
    then if same a.name b.name then equal_items equal a.items b.items else ok false
    else ok true

unfoldable pub equal_at : Compare → List CType → Compare
equal_at equal ts none none = ok true
equal_at equal ts none (some b) = ok false
equal_at equal ts (some a) none = ok false
equal_at equal ts (some a) (some b) =
    if a == b then ok true else equal_types equal (fetch ts a) (fetch ts b)

unfoldable pub type_equal : ℕ → List CType → Compare
type_equal zero ts a b = stuck
type_equal (suc n) ts a b = equal_at (type_equal n ts) ts a b
