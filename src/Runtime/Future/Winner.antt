-- ===== src/Runtime/Future/Winner.antt =====
-- One completion determines the value and the error.
use tiny_cplus.Prelude.{
  ℕ, ◌≡◌, refl, sym, ap, ◌∙◌, Bool, true, false, Option, none, some, List, [], ◌∷◌, ◌++◌, ◌==◌,
  if_cases, arith,
}
use tiny_cplus.Prelude.Int.{ℤ}
use tiny_cplus.Machine.Block.{Block, read, read-copy_block}
use tiny_cplus.Runtime.Future.{Continuation, Future, store, complete, then_do}
use tiny_cplus.Runtime.Future.History.{History, when_zero}

-- The bytes that a completion with this value leaves
abbrev pub content : Option Block → ℕ → List ℕ
content none size = read (λ i. 0) 0 size
content (some v) size = read v 0 size

-- Before completion there is no winner; after it the future holds the one winner's value and error.
pub data Won (f : Future) (winners : List (Option Block × ℤ)) : Type 0 where
  no_winner :
      f.complete ≡ false
      → winners ≡ []
      → read f.bytes 0 f.size ≡ content none f.size
      → Won f winners
  winner :
      (value : Option Block)
      → f.complete ≡ true
      → winners ≡ (value, f.error) ∷ []
      → read f.bytes 0 f.size ≡ content value f.size
      → Won f winners

read-store :
    (value : Option Block) (size : ℕ) (bytes : Block)
    → read bytes 0 size ≡ content none size
    → read (store value size bytes) 0 size ≡ content value size
unfolding store read
read-store none size bytes e = e
read-store (some v) size bytes e =
    if_cases (λ b. read b 0 size ≡ read v 0 size) (size == 0)
      (λ z. let none_left : size ≡ 0 = ground arith in rw none_left refl)
      (λ z. read-copy_block bytes 0 v 0 size)

unfoldable pub WonAfter : History → Option Block → ℤ → ℕ × Future × List Continuation → Type 0
WonAfter h value error r = Won r.1 (when_zero r.0 (value, error) h.winners)

pub Won-complete :
    (value : Option Block) (error : ℤ) (h : History)
    → Won h.future h.winners
    → WonAfter h value error (complete value error h.future)
unfolding complete WonAfter
Won-complete value error h w =
    if_cases (WonAfter h value error) h.future.complete (λ c. w)
      (λ c. elim w [
        | no_winner e f g ↦
            winner value refl (ap (λ z. z ++ (value, error) ∷ []) f)
              (read-store value h.future.size h.future.bytes g)
        | winner v e f g ↦ absurd (cc (sym c ∙ e))
      ])

unfoldable pub WonSame : History → ℕ × Future × List Continuation → Type 0
WonSame h r = Won r.1 h.winners

pub Won-then :
    (memory : Bool) (k : Continuation) (h : History)
    → Won h.future h.winners
    → WonSame h (then_do memory k h.future)
unfolding then_do WonSame
Won-then memory k h w =
    if_cases (WonSame h) memory
      (λ m.
        if_cases (WonSame h) h.future.complete (λ c. w)
          (λ c. elim w [ no_winner e f g ↦ no_winner e f g | winner v e f g ↦ winner v e f g ]))
      (λ m. w)
