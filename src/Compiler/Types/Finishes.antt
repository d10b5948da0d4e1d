-- ===== src/Compiler/Types/Finishes.antt =====
-- `type_equal` comes to an end on a closed table.
use tiny_cplus.Prelude.{
  ℕ, zero, suc, Bool, false, not, ◌||◌, List, [], ◌∷◌, length, Option, none, some, ◌==◌, ==_iff,
  sym, if◌then◌else◌, if_cases, arith,
}
use mathlib.Core.Path.{subst}
use tiny_cplus.Prelude.Text.{same}
use tiny_cplus.Compiler.Loop.{Result, ok, Ends, Ends-and_then}
use tiny_cplus.Compiler.Types.{
  CType, ptr, array, slice, tuple, func, closure, named, enum, is, fetch,
}
use tiny_cplus.Compiler.Types.Equal.{
  Compare, both, same_flag, equal_items, equal_types, equal_at, type_equal,
}
use tiny_cplus.Compiler.Types.Closed.{BaseBelow, Below, Closed, BaseBelow-le, Below-le}

abbrev pub Finishes {ℓ} : {A : Type ℓ} → Result A → Type 0
Finishes r = Ends (λ _. Unit) r

Finishes-both : (r s : Result Bool) → Finishes r → Finishes s → Finishes (both r s)
Finishes-both r s h k =
    Ends-and_then (λ _. Unit) (λ _. Unit) r (λ b. if b then s else ok false) h
      (λ b _. if_cases Finishes b (λ _. k) (λ _. tt))

-- A comparison that finishes on the types below `n`.
abbrev FinishesBelow : ℕ → Compare → Type 0
FinishesBelow n equal = (x y : Option ℕ) → BaseBelow n x → Finishes (equal x y)

pub Finishes-equal_items :
    (n : ℕ) (equal : Compare) (xs ys : List ℕ)
    → FinishesBelow n equal
    → Below n xs
    → Finishes (equal_items equal xs ys)
unfolding equal_items
Finishes-equal_items n equal [] [] h b = tt
Finishes-equal_items n equal [] (y ∷ ys) h b = tt
Finishes-equal_items n equal (x ∷ xs) [] h b = tt
Finishes-equal_items n equal (x ∷ xs) (y ∷ ys) h (a, b) =
    Finishes-both (equal (some x) (some y)) (equal_items equal xs ys) (h (some x) (some y) a)
      (Finishes-equal_items n equal xs ys h b)

pub Finishes-equal_types :
    (n : ℕ) (equal : Compare) (a b : CType)
    → FinishesBelow n equal
    → BaseBelow n a.base
    → Below n a.items
    → Finishes (equal_types equal a b)
unfolding equal_types
Finishes-equal_types n equal a b h k l =
    let F = Finishes {A = Bool} in
    if_cases F (not (is a.kind b.kind) || not (same_flag a.qualified b.qualified)) (λ _. tt)
      (λ _.
        if_cases F (is a.kind ptr || is a.kind array || is a.kind slice)
          (λ _. if_cases F (a.count == b.count) (λ _. h a.base b.base k) (λ _. tt))
          (λ _.
            if_cases F (is a.kind enum) (λ _. tt)
              (λ _.
                if_cases F (is a.kind tuple || is a.kind func || is a.kind closure)
                  (λ _.
                    if_cases F (not (a.callconv == b.callconv)) (λ _. tt)
                      (λ _.
                        Finishes-both (equal a.base b.base) (equal_items equal a.items b.items)
                          (h a.base b.base k) (Finishes-equal_items n equal a.items b.items h l)))
                  (λ _.
                    if_cases F (is a.kind named)
                      (λ _.
                        if_cases F (same a.name b.name)
                          (λ _. Finishes-equal_items n equal a.items b.items h l) (λ _. tt))
                      (λ _. tt)))))

-- Every type refers to older ones only, which have lower addresses.
abbrev pub Older : List CType → Type 0
Older [] = Unit
Older (t ∷ ts) = BaseBelow (length ts) t.base × Below (length ts) t.items × Older ts

pub Closed-Older : (ts : List CType) → Closed ts → Older ts
Closed-Older [] h = tt
Closed-Older (t ∷ ts) (r, h) = (r.base_below, r.items_below, Closed-Older ts h)

LowerAt : ℕ → CType → Type 0
LowerAt n t = BaseBelow n t.base × Below n t.items

Older-fetch : (ts : List CType) (a : ℕ) → Older ts → LowerAt a (fetch ts a)
unfolding fetch LowerAt
Older-fetch [] a h = (tt, tt)
Older-fetch (t ∷ ts) a (b, i, h) =
    if_cases (LowerAt a) (a == length ts)
      (λ e. subst (λ m. LowerAt m t) (sym ((==_iff a (length ts)).0 e)) (b, i))
      (λ _. Older-fetch ts a h)

-- On a table where every type refers to older ones only, `type_equal` of a type below the address `n`,
-- or of NULL, and any other comes to an end, with calls at most `suc n` deep: a step goes to lower
-- addresses.
pub Finishes-type_equal :
    (n : ℕ) (ts : List CType) → Older ts → FinishesBelow n (type_equal (suc n) ts)
unfolding type_equal equal_at LowerAt
Finishes-type_equal n ts h none none b = tt
Finishes-type_equal n ts h none (some y) b = tt
Finishes-type_equal n ts h (some x) none b = tt
Finishes-type_equal zero ts h (some x) (some y) b = absurd (omega arith)
Finishes-type_equal (suc n) ts h (some x) (some y) b =
    let (base, items) = Older-fetch ts x h in
    if_cases Finishes (x == y) (λ _. tt)
      (λ _.
        Finishes-equal_types n (type_equal (suc n) ts) (fetch ts x) (fetch ts y)
          (Finishes-type_equal n ts h) (BaseBelow-le x n (fetch ts x).base (omega arith) base)
          (Below-le x n (fetch ts x).items (omega arith) items))
