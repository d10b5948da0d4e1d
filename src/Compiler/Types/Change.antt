-- ===== src/Compiler/Types/Change.antt =====
-- Assignments to the fields of a type in the table.
use tiny_cplus.Prelude.{ℕ, ◌≡◌, refl, sym, List, [], ◌∷◌, ◌==◌, if_cases, length}
use mathlib.Core.Path.{subst}
use tiny_cplus.Compiler.Types.{CType, Table, update}
use tiny_cplus.Compiler.Types.Closed.{Refers, Closed, PairsBelow, IsSound}

-- It leaves a type where it is, with what it refers to.
abbrev pub Harmless : (CType → CType) → Type 0
Harmless f = (n : ℕ) (t : CType) → Refers n t → Refers n (f t)

pub length-update :
    (ts : List CType) (a : ℕ) (f : CType → CType) → length (update ts a f) ≡ length ts
unfolding update
length-update [] a f = refl
length-update (t ∷ ts) a f =
    if_cases (λ (l : List CType). length l ≡ length (t ∷ ts)) (a == length ts) (λ _. refl)
      (λ _. rw (length-update ts a f) refl)

Closed-update :
    (ts : List CType) (a : ℕ) (f : CType → CType) → Harmless f → Closed ts → Closed (update ts a f)
unfolding update
Closed-update [] a f h c = tt
Closed-update (t ∷ ts) a f h (r, c) =
    if_cases Closed (a == length ts) (λ _. (h (length ts) t r, c))
      (λ _. (subst (λ n. Refers n t) (sym (length-update ts a f)) r, Closed-update ts a f h c))

pub IsSound-update :
    (c : Table) (a : ℕ) (f : CType → CType)
    → Harmless f
    → IsSound c
    → IsSound (record c { types = update c.types a f })
IsSound-update c a f h s = record {
  closed = Closed-update c.types a f h s.closed;
  builtin_below =
      subst (λ n. PairsBelow n c.builtin) (sym (length-update c.types a f)) s.builtin_below;
}
