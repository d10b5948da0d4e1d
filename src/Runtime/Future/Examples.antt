-- ===== src/Runtime/Future/Examples.antt =====
-- A future with two continuations, one of which comes after the completion.
use tiny_cplus.Prelude.{ℕ, ◌≡◌, refl, ◌↔◌, true, false, none, some, [], ◌∷◌, arith}
use tiny_cplus.Prelude.Int.{pos}
use tiny_cplus.Runtime.Future.{
  Continuation, Future, create, called, pooled, hand_to, complete, ready, then_do,
}
use tiny_cplus.Runtime.Future.History.{
  History, started, after_then, after_complete, after_hand, after_release, here, behind, by_then,
  by_complete, by_hand, by_release, Reach, start, later,
}
use tiny_cplus.Runtime.Future.Once.{Sees, first_wins, freed_at_last}

abbrev new_future : Future
new_future = record {
  refs = 1;
  size = 1;
  complete = false;
  error = pos 0;
  continuations = [];
  bytes = λ i. 0;
}

abbrev earlier_one : Continuation
earlier_one = record { pool = none; action = 1 }

abbrev later_one : Continuation
later_one = record { pool = some 3; action = 2 }

abbrev accepts : ℕ → ℕ → ℕ
accepts p a = 0

abbrev asked : History
asked = after_then true earlier_one (started new_future)

abbrev completed : History
completed = after_complete (some (λ i. 7)) (pos 0) asked

abbrev asked_again : History
asked_again = after_then true later_one completed

-- The later one is handed over first, while the completion has still to hand over the earlier one.
abbrev told_one : History
told_one = after_hand accepts later_one ([] ∷ (earlier_one ∷ []) ∷ [] ∷ []) asked_again

abbrev told_two : History
told_two = after_hand accepts earlier_one ([] ∷ [] ∷ [] ∷ []) told_one

told_one-Reach : Reach 96 1 told_one
unfolding create after_then after_complete after_hand then_do complete
told_one-Reach =
    later
      (later
        (later (later (start refl) (by_then true earlier_one (omega arith)))
          (by_complete (some (λ i. 7)) (pos 0) (omega arith)))
        (by_then true later_one (omega arith)))
      (by_hand accepts later_one ([] ∷ (earlier_one ∷ []) ∷ [] ∷ []) here)

told_two-Reach : Reach 96 1 told_two
unfolding create after_then after_complete after_hand then_do complete
told_two-Reach =
    later told_one-Reach (by_hand accepts earlier_one ([] ∷ [] ∷ [] ∷ []) (behind here))

abbrev let_go : History
let_go = after_release told_two

let_go-Reach : Reach 96 1 let_go
unfolding after_then after_complete after_hand
let_go-Reach = later told_two-Reach (by_release (omega arith))

first_wins_example : Sees 1 told_two.future told_two.winners
first_wins_example = first_wins {header = 96} {size = 1} {h = told_two} told_two-Reach

freed_at_last_example : (let_go.freed ≡ true) ↔ (let_go.holders ≡ 0)
freed_at_last_example = freed_at_last {header = 96} {size = 1} {h = let_go} let_go-Reach

test_handed : told_two.handed ≡ pooled later_one ∷ called earlier_one ∷ []
unfolding after_then after_complete after_hand then_do complete hand_to
test_handed = refl

test_twice : (complete none (pos 1) told_two.future).0 ≡ 1
unfolding after_then after_complete after_hand then_do complete
test_twice = refl

test_ready : ready new_future ≡ false
unfolding ready
test_ready = refl
