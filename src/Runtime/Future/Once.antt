-- ===== src/Runtime/Future/Once.antt =====
-- The invariant of a future that threads share, and what it says.
use tiny_cplus.Prelude.{
  ℕ, ◌+◌, ◌-◌, ◌<◌, ◌≡◌, refl, sym, ap, ◌∙◌, ◌↔◌, Bool, true, false, Option, none, some, List, [],
  ◌∷◌, ◌==◌, if◌then◌else◌, if_cases, if_some, ltb, arith,
}
use tiny_cplus.Prelude.Int.{ℤ}
use tiny_cplus.Machine.{word, add_size-eq, sub_size-eq}
use tiny_cplus.Machine.Block.{Block, read, read-copy_block, copy_block}
use tiny_cplus.Runtime.Future.{
  Continuation, Future, create, retain, release, Handed, complete, get, then_do,
}
use mathlib.Core.Path.{subst}
use mathlib.Core.List.{flatten}
use tiny_cplus.Runtime.Future.History.{
  History, after_then, after_complete, after_hand, after_retain, after_release, Step, by_then,
  by_complete, by_hand, by_retain, by_release, Reach, start, later,
}
use tiny_cplus.Runtime.Future.HandOver.{
  Told, kept, told, Told-then, Told-complete, Told-hand, AfterThen, AfterComplete,
}
use tiny_cplus.Runtime.Future.Winner.{
  content, Won, no_winner, winner, Won-then, Won-complete, WonAfter, WonSame,
}

Refs : Future → ℕ × Future × List Continuation → Type 0
Refs f r = (r.1.refs ≡ f.refs) × (r.1.size ≡ f.size)

Refs-then : (memory : Bool) (k : Continuation) (f : Future) → Refs f (then_do memory k f)
unfolding then_do Refs
Refs-then memory k f =
    if_cases (Refs f) memory
      (λ m. if_cases (Refs f) f.complete (λ c. (refl, refl)) (λ c. (refl, refl)))
      (λ m. (refl, refl))

Refs-complete : (value : Option Block) (error : ℤ) (f : Future) → Refs f (complete value error f)
unfolding complete Refs
Refs-complete value error f = if_cases (Refs f) f.complete (λ c. (refl, refl)) (λ c. (refl, refl))

pub record Inv (size : ℕ) (h : History) : Type 0 where
  pub told_all : Told h.future h.accepted h.held h.handed
  pub won : Won h.future h.winners
  pub same_size : h.future.size ≡ size
  pub counted : h.future.refs ≡ h.holders
  pub bounded : h.holders < word
  pub freed_last : (h.freed ≡ true) ↔ (h.holders ≡ 0)

-- References do not matter to the continuations and the value.
Told-refs :
    {f : Future} {ks : List Continuation} {held : List (List Continuation)} {hs : List Handed}
    (n : ℕ)
    → Told f ks held hs
    → Told (record f { refs = n }) ks held hs
Told-refs n (kept e f g i) = kept e f g i
Told-refs n (told e f p) = told e f p

Won-refs :
    {f : Future} {ws : List (Option Block × ℤ)} (n : ℕ) → Won f ws → Won (record f { refs = n }) ws
Won-refs n (no_winner e f g) = no_winner e f g
Won-refs n (winner v e f g) = winner v e f g

retain-refs : (f : Future) → f.refs + 1 < word → (retain f).refs ≡ f.refs + 1
unfolding retain
retain-refs f h = add_size-eq f.refs 1 h

release-refs :
    (f : Future)
    → 0 < f.refs
    → f.refs < word
    → ((release f).1.refs ≡ f.refs - 1) × ((release f).0 ≡ (f.refs - 1 == 0))
unfolding release
release-refs f h k = let e = sub_size-eq f.refs 1 (omega arith) k in (e, ap (λ n. n == 0) e)

at_zero : (b : Bool) (n : ℕ) → b ≡ (n == 0) → (b ≡ true) ↔ (n ≡ 0)
at_zero b n e = (λ f. ground arith, λ f. ground arith)

Inv-Step : {size : ℕ} {h k : History} → Step h k → Inv size h → Inv size k
unfolding after_then after_complete after_hand after_retain after_release retain release AfterThen
    AfterComplete WonAfter WonSame Refs
Inv-Step {h} (by_then memory k p) i =
    let (r, s) = Refs-then memory k h.future in
    record {
      told_all = Told-then memory k h i.told_all;
      won = Won-then memory k h i.won;
      same_size = s ∙ i.same_size;
      counted = r ∙ i.counted;
      bounded = i.bounded;
      freed_last = i.freed_last;
    }
Inv-Step {h} (by_complete value error p) i =
    let (r, s) = Refs-complete value error h.future in
    record {
      told_all = Told-complete value error h i.told_all;
      won = Won-complete value error h i.won;
      same_size = s ∙ i.same_size;
      counted = r ∙ i.counted;
      bounded = i.bounded;
      freed_last = i.freed_last;
    }
Inv-Step {h} (by_hand submits k rest t) i = record {
  told_all = Told-hand submits k rest h t i.told_all;
  won = i.won;
  same_size = i.same_size;
  counted = i.counted;
  bounded = i.bounded;
  freed_last = i.freed_last;
}
Inv-Step {h} (by_retain p q) i = record {
  told_all = Told-refs _ i.told_all;
  won = Won-refs _ i.won;
  same_size = i.same_size;
  counted = retain-refs h.future (omega (arith, i.counted)) ∙ ap (λ n. n + 1) i.counted;
  bounded = q;
  freed_last = (λ e. absurd (omega (arith, p, i.freed_last.0 e)), λ e. absurd (omega arith));
}
Inv-Step {h} (by_release p) i =
    let (c, f) =
      release-refs h.future (omega (arith, i.counted)) (omega (arith, i.counted, i.bounded)) in
    record {
      told_all = Told-refs _ i.told_all;
      won = Won-refs _ i.won;
      same_size = i.same_size;
      counted = c ∙ ap (λ n. n - 1) i.counted;
      bounded = omega (arith, i.bounded);
      freed_last =
          at_zero (release h.future).0 (h.holders - 1) (f ∙ ap (λ n. n - 1 == 0) i.counted);
    }

pub Reach-Inv_of : {header size : ℕ} {h : History} → Reach header size h → Inv size h
unfolding create flatten
Reach-Inv_of {header} {size} (start {f} e) =
    let (b, g) = if_some (ltb (word - 1 - header) size) _ f e in
    record {
      told_all = subst (λ z. Told z [] [] []) g (kept refl refl refl refl);
      won = subst (λ z. Won z []) g (no_winner refl refl refl);
      same_size = sym (ap (λ z. z.size) g);
      counted = sym (ap (λ z. z.refs) g);
      bounded = omega arith;
      freed_last = (λ k. absurd (cc k), λ k. absurd (omega arith));
    }
Reach-Inv_of (later r s) = Inv-Step s (Reach-Inv_of r)

-- What a reader of the future sees
pub data Sees (size : ℕ) (f : Future) (winners : List (Option Block × ℤ)) : Type 0 where
  waits : winners ≡ [] → ((d : Option Block) → get d f ≡ none) → Sees size f winners
  sees :
      (value : Option Block) (error : ℤ)
      → winners ≡ (value, error) ∷ []
      → get none f ≡ some (none, error)
      → ((d : Block)
          → (b : Block) × (get (some d) f ≡ some (some b, error))
            × (read b 0 size ≡ content value size))
      → Sees size f winners

read_copied :
    (size : ℕ) (d bytes : Block)
    → read (if size == 0 then d else copy_block d 0 bytes 0 size) 0 size ≡ read bytes 0 size
unfolding read
read_copied size d bytes =
    if_cases (λ b. read b 0 size ≡ read bytes 0 size) (size == 0)
      (λ z. let none_left : size ≡ 0 = ground arith in rw none_left refl)
      (λ z. read-copy_block d 0 bytes 0 size)

get-waits : (d : Option Block) (f : Future) → f.complete ≡ false → get d f ≡ none
unfolding get
get-waits none f e = simp e refl
get-waits (some d) f e = simp e refl

get-none : (f : Future) → f.complete ≡ true → get none f ≡ some (none, f.error)
unfolding get
get-none f e = simp e refl

get-some :
    (d : Block) (f : Future)
    → f.complete ≡ true
    → (b : Block) × (get (some d) f ≡ some (some b, f.error))
      × (read b 0 f.size ≡ read f.bytes 0 f.size)
unfolding get
get-some d f e = (_, simp e refl, read_copied f.size d f.bytes)

-- However the threads interleave, at most one completion of the future succeeds: before it every
-- reader waits, and after it every reader gets that completion's error and, where the destination is
-- not NULL, its value, or zeros for a value that is NULL.
pub first_wins :
    {header size : ℕ} {h : History} → Reach header size h → Sees size h.future h.winners
first_wins {header} {size} {h} r =
    let i = Reach-Inv_of r in
    elim i.won [
      | no_winner e f g ↦ waits f (λ d. get-waits d h.future e)
      | winner v e f g ↦ sees v h.future.error f (get-none h.future e) (λ d.
          let b = get-some d h.future e in
          (b.0, b.1, subst (λ n. read b.0 0 n ≡ content v n) i.same_size (b.2 ∙ g)))
    ]

-- However the threads interleave, where never 2^64 references are held at once, the future is freed
-- exactly when the last reference has been released.
pub freed_at_last :
    {header size : ℕ} {h : History} → Reach header size h → (h.freed ≡ true) ↔ (h.holders ≡ 0)
freed_at_last r = (Reach-Inv_of r).freed_last
