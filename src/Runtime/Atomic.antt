-- ===== src/Runtime/Atomic.antt =====
-- runtime/concurrent.c: `TcAtomic`. Each operation is one critical section of its mutex, so that the
-- operations of all threads stand in one order.
pub mod Examples
use tiny_cplus.Prelude.{
  ℕ, ◌+◌, ◌-◌, ◌*◌, ◌%◌, ◌^◌, ◌<◌, ◌≤◌, ◌≡◌, refl, sym, ap, ◌∙◌, Bool, true, false, Option, none,
  some, List, [], ◌∷◌, ltb, if◌then◌else◌, if_cases, arith,
}
use tiny_cplus.Prelude.Int.{ℤ, pos, negsuc}
use tiny_cplus.Machine.{word, add_size}

-- The conversions between int64_t and uint64_t
unfoldable pub to_uint64 : ℤ → ℕ
to_uint64 (pos n) = n % word
to_uint64 (negsuc n) = word - 1 - n % word

unfoldable pub to_int64 : ℕ → ℤ
to_int64 n = if ltb n (2 ^ 63) then pos n else negsuc (word - 1 - n)

pub record Atomic : Type 0 where
  pub value : ℤ

-- `tc_atomic_create`, where `memory` is whether malloc finds memory
unfoldable pub create : Bool → ℤ → Option Atomic
create memory value = if memory then some (record { value = value }) else none

-- `tc_atomic_load`
unfoldable pub load : Atomic → ℤ
load a = a.value

-- `tc_atomic_store`
unfoldable pub store : ℤ → Atomic → Atomic
store v a = record a { value = v }

-- `tc_atomic_add`: the old value and the atomic
unfoldable pub add : ℤ → Atomic → ℤ × Atomic
add v a = (a.value, record a { value = to_int64 (add_size (to_uint64 a.value) (to_uint64 v)) })

-- The additions of all threads in their order: what each returned, and the atomic after them
abbrev pub add_all : List ℤ → Atomic → List ℤ × Atomic
add_all [] a = ([], a)
add_all (v ∷ vs) a = ((add v a).0 ∷ (add_all vs (add v a).1).0, (add_all vs (add v a).1).1)

abbrev pub sum : List ℤ → ℕ
sum [] = 0
sum (v ∷ vs) = to_uint64 v + sum vs

-- The values that the atomic has had before each addition
abbrev pub partial_sums : ℕ → List ℤ → List ℕ
partial_sums s [] = []
partial_sums s (v ∷ vs) = s % word ∷ partial_sums (s + to_uint64 v) vs

abbrev pub words : List ℤ → List ℕ
words [] = []
words (v ∷ vs) = to_uint64 v ∷ words vs

to_uint64-bound : (v : ℤ) → to_uint64 v < word
unfolding to_uint64
to_uint64-bound (pos n) = omega arith
to_uint64-bound (negsuc n) = omega arith

to_uint64-to_int64 : (n : ℕ) → n < word → to_uint64 (to_int64 n) ≡ n
unfolding to_uint64 to_int64
to_uint64-to_int64 n h =
    if_cases (λ v. to_uint64 v ≡ n) (ltb n (2 ^ 63)) (λ e. omega arith) (λ e. ground arith)

word-add :
    (v : ℤ) (a : Atomic) → to_uint64 (add v a).1.value ≡ (to_uint64 a.value + to_uint64 v) % word
unfolding add add_size
word-add v a = to_uint64-to_int64 _ (omega arith)

partial_sums-mod :
    (s t : ℕ) (vs : List ℤ) → s % word ≡ t % word → partial_sums s vs ≡ partial_sums t vs
partial_sums-mod s t [] h = refl
partial_sums-mod s t (v ∷ vs) h =
    rw (h, partial_sums-mod (s + to_uint64 v) (t + to_uint64 v) vs (omega arith)) refl

-- In whatever order threads add to an atomic, no addition is lost: the additions return the partial
-- sums of that order modulo 2^64, and the atomic ends as the sum of the first value and all of them.
pub add_all_lem :
    (vs : List ℤ) (a : Atomic)
    → (words (add_all vs a).0 ≡ partial_sums (to_uint64 a.value) vs)
      × (to_uint64 (load (add_all vs a).1) ≡ (to_uint64 a.value + sum vs) % word)
unfolding load add
add_all_lem [] a = (refl, let l = to_uint64-bound a.value in omega arith)
add_all_lem (v ∷ vs) a =
    let (e, f) = add_all_lem vs (add v a).1 in
    let g = word-add v a in
    let l = to_uint64-bound a.value in
    let small : to_uint64 a.value ≡ to_uint64 a.value % word = omega arith in
    let next =
      partial_sums-mod (to_uint64 (add v a).1.value) (to_uint64 a.value + to_uint64 v) vs
        (omega arith) in
    (cc (e, next, small), omega arith)
