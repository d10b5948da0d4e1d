-- ===== src/Runtime/Future/History.antt =====
-- The threads that share a future, in any interleaving of their critical sections and of what they
-- hand over behind them.
use tiny_cplus.Prelude.{
  ℕ, ◌+◌, ◌-◌, ◌<◌, ◌≡◌, Bool, true, false, Option, some, List, [], ◌∷◌, ◌++◌, ◌==◌, if◌then◌else◌,
}
use tiny_cplus.Prelude.Int.{ℤ}
use tiny_cplus.Machine.{word}
use tiny_cplus.Machine.Block.{Block}
use tiny_cplus.Runtime.Future.{
  Continuation, Future, create, retain, release, Handed, hand_over, complete, then_do,
}

-- `holders` are the references that threads hold; `accepted` are the continuations that
-- tc_future_then has taken, `held` has a list for each call that has left its critical section, of
-- those that it has still to hand over, and `handed` are those that were called or pooled; `winners`
-- are the values and errors of the calls of tc_future_complete that come to 0.
pub record History : Type 0 where
  pub future : Future
  pub freed : Bool
  pub holders : ℕ
  pub accepted : List Continuation
  pub held : List (List Continuation)
  pub handed : List Handed
  pub winners : List (Option Block × ℤ)

abbrev pub started : Future → History
started f = record {
  future = f;
  freed = false;
  holders = 1;
  accepted = [];
  held = [];
  handed = [];
  winners = [];
}

abbrev pub when_zero {ℓ} : {A : Type ℓ} → ℕ → A → List A → List A
when_zero c a xs = if c == 0 then xs ++ a ∷ [] else xs

unfoldable pub after_then : Bool → Continuation → History → History
after_then memory k h =
    let r = then_do memory k h.future in
    record h { future = r.1; accepted = when_zero r.0 k h.accepted; held = r.2 ∷ h.held }

unfoldable pub after_complete : Option Block → ℤ → History → History
after_complete value error h =
    let r = complete value error h.future in
    record h { future = r.1; held = r.2 ∷ h.held; winners = when_zero r.0 (value, error) h.winners }

-- One of the calls takes the head of its list.
pub data Takes (k : Continuation)
    : List (List Continuation) → List (List Continuation) → Type 0 where
  here :
      {ks : List Continuation} {others : List (List Continuation)}
      → Takes k ((k ∷ ks) ∷ others) (ks ∷ others)
  behind :
      {ks : List Continuation} {others rest : List (List Continuation)}
      → Takes k others rest
      → Takes k (ks ∷ others) (ks ∷ rest)

unfoldable pub after_hand :
    (ℕ → ℕ → ℕ) → Continuation → List (List Continuation) → History → History
after_hand submits k rest h = record h {
  held = rest;
  handed = h.handed ++ hand_over submits k ∷ [];
}

unfoldable pub after_retain : History → History
after_retain h = record h { future = retain h.future; holders = h.holders + 1 }

unfoldable pub after_release : History → History
after_release h = record h {
  future = (release h.future).1;
  freed = (release h.future).0;
  holders = h.holders - 1;
}

-- A thread that holds a reference runs the critical section of an operation, or a call that has left
-- its critical section hands over the next continuation of its list, where what a pool answers
-- differs from call to call. A reference is retained only while there are fewer than 2^64.
pub data Step (h : History) : History → Type 0 where
  by_then : (memory : Bool) (k : Continuation) → 0 < h.holders → Step h (after_then memory k h)
  by_complete :
      (value : Option Block) (error : ℤ) → 0 < h.holders → Step h (after_complete value error h)
  by_hand :
      (submits : ℕ → ℕ → ℕ) (k : Continuation) (rest : List (List Continuation))
      → Takes k h.held rest
      → Step h (after_hand submits k rest h)
  by_retain : 0 < h.holders → h.holders + 1 < word → Step h (after_retain h)
  by_release : 0 < h.holders → Step h (after_release h)

pub data Reach (header size : ℕ) : History → Type 0 where
  start : {f : Future} → create header true size ≡ some f → Reach header size (started f)
  later : {h k : History} → Reach header size h → Step h k → Reach header size k
