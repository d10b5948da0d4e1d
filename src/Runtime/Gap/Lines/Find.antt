-- ===== src/Runtime/Gap/Lines/Find.antt =====
-- `tc_gap_find`: the first occurrence of a needle at or behind a position.
use tiny_cplus.Prelude.{
  ℕ, zero, suc, ◌+◌, ◌-◌, ◌<◌, ◌≤◌, ◌≡◌, refl, ap, ◌∙◌, ◌⊎◌, inl, inr, true, false, Bool-cases,
  List, [], ◌∷◌, arith, length, get_or, take, drop, length-take, length-drop, ◌==◌, ==_iff, ltb,
  ◌||◌, ◌↔◌,
}
use tiny_cplus.Prelude.Int.{ℤ, pos, negsuc}
use tiny_cplus.Runtime.Gap.{Gap, size}
use tiny_cplus.Runtime.Gap.Valid.{IsValid, contents, size-length, byte-contents}
use tiny_cplus.Runtime.Gap.Lines.Bounds.{from_above}
use tiny_cplus.Runtime.Gap.Lines.{matched, search_from, find}

abbrev pub OccursAt : List ℕ → List ℕ → ℕ → Type 0
OccursAt l needle p = take (length needle) (drop p l) ≡ needle

-- What the result of a search from `start` says: the first place from there on, or -1 where the
-- needle is empty, `start` lies behind the end, or the needle occurs nowhere from `start` on.
abbrev pub Finds : List ℕ → List ℕ → ℕ → ℤ → Type 0
Finds l needle start (pos p) =
    (start ≤ p)
    × (p + length needle ≤ length l)
    × OccursAt l needle p
    × ((q : ℕ) → start ≤ q → q < p → ¬ OccursAt l needle q)
Finds l needle start (negsuc n) =
    (n ≡ 0) × ((needle ≡ []) ⊎ ((q : ℕ) → start ≤ q → ¬ OccursAt l needle q))

drop-cons : (l : List ℕ) (p : ℕ) → p < length l → drop p l ≡ get_or l p 0 ∷ drop (p + 1) l
drop-cons [] p h = absurd (omega arith)
drop-cons (x ∷ l) zero h = refl
drop-cons (x ∷ l) (suc p) h =
    drop-cons l p (omega arith)
    ∙ ap (λ k. get_or l p 0 ∷ drop k (x ∷ l)) {x = suc (p + 1)} {y = suc p + 1} (omega arith)

OccursAt-within :
    (l needle : List ℕ) (p : ℕ)
    → 0 < length needle
    → OccursAt l needle p
    → p + length needle ≤ length l
OccursAt-within l needle p h o =
    omega (arith, ap length o, length-take (length needle) (drop p l), length-drop p l)

matched-le : (g : Gap) (p : ℕ) (needle : List ℕ) → matched g p needle ≤ length needle
unfolding matched
matched-le g p [] = omega arith
matched-le g p (c ∷ needle) = ground (arith, matched-le g (p + 1) needle)

module _ (g : Gap) (v : IsValid g) where
  matched_iff :
      (needle : List ℕ) (p : ℕ)
      → p + length needle ≤ length (contents g)
      → (matched g p needle ≡ length needle) ↔ OccursAt (contents g) needle p
  unfolding matched
  matched_iff [] p h = (λ _. refl, λ _. refl)
  matched_iff (c ∷ needle) p h = rw (drop-cons (contents g) p (omega arith)) (
    (λ e. ground (arith, byte-contents g p v, matched_iff needle (p + 1), e)),
    (λ e. ground (arith, byte-contents g p v, matched_iff needle (p + 1), e)),
  )

  absurd_hit :
      (needle : List ℕ) (p : ℕ)
      → (matched g p needle == length needle) ≡ false
      → matched g p needle ≡ length needle
      → ⊥
  absurd_hit needle p miss e = ground arith

  Finds-search_from :
      (needle : List ℕ) (start n p : ℕ)
      → 0 < length needle
      → start ≤ p
      → n ≡ length (contents g) - length needle + 1 - p
      → length needle ≤ length (contents g)
      → ((q : ℕ) → start ≤ q → q < p → ¬ OccursAt (contents g) needle q)
      → Finds (contents g) needle start (search_from g needle n p)
  unfolding search_from
  Finds-search_from needle start zero p some_ le e fits none_ = (
    refl,
    inr (λ q a o. none_ q a (omega (arith, OccursAt-within (contents g) needle q some_ o)) o),
  )
  Finds-search_from needle start (suc n) p some_ le e fits none_ =
      elim (Bool-cases (matched g p needle == length needle)) [
        | inl hit ↦
            rw (hit, search_from)
              (
                le,
                omega arith,
                (matched_iff needle p (omega arith)).0
                    ((==_iff (matched g p needle) (length needle)).0 hit),
                none_,
              )
        | inr miss ↦
            rw (miss, search_from)
              (Finds-search_from needle start n (p + 1) some_ (omega arith) (omega arith) fits (
                from_above (λ q. ¬ OccursAt (contents g) needle q) start p none_
                  (λ o. absurd_hit needle p miss ((matched_iff needle p (omega arith)).1 o))))
      ]

outside :
    (g : Gap) (n start q : ℕ)
    → IsValid g
    → (ltb (size g) start || ltb (size g) n) ≡ true
    → start ≤ q
    → 0 < n
    → q + n ≤ length (contents g)
    → ⊥
outside g n start q v out a some_ h = ground (arith, size-length g v)

inside_lem :
    (g : Gap) (n start : ℕ)
    → IsValid g
    → (ltb (size g) start || ltb (size g) n) ≡ false
    → (start ≤ length (contents g)) × (n ≤ length (contents g))
inside_lem g n start v h = ground (arith, size-length g v)

-- On a valid buffer `tc_gap_find` gives the first place at or behind `start` where the needle
-- occurs in the text; it gives -1 exactly for an empty needle or where there is no such place.
pub find_lem :
    (g : Gap) (needle : List ℕ) (start : ℕ)
    → IsValid g
    → Finds (contents g) needle start (find g needle start)
unfolding find
find_lem g [] start v = (refl, inl refl)
find_lem g (c ∷ needle) start v = elim (Bool-cases (ltb (size g) start || ltb (size g) n)) [
  | inl out ↦
      rw (length_test, out, find)
        (
          refl,
          inr (λ q a o.
              outside g n start q v out a (omega arith)
                (OccursAt-within (contents g) (c ∷ needle) q (omega arith) o)),
        )
  | inr within ↦
      rw (length_test, within, find)
        (Finds-search_from g v (c ∷ needle) start (size g - n + 1 - start) start (omega arith)
          (omega arith) (omega (arith, size-length g v)) (inside_lem g n start v within).1
          (λ q a b. absurd (omega arith)))
]
  where
    n : ℕ
    n = length (c ∷ needle)

    length_test : (length (c ∷ needle) == 0) ≡ false
    length_test = ground arith
