-- ===== src/Runtime/Future/HandOver.antt =====
-- Every continuation is handed over once.
use tiny_cplus.Prelude.{
  ℕ, ◌≡◌, refl, sym, ap, ◌∙◌, Bool, true, false, Option, none, some, List, [], ◌∷◌, ◌++◌,
  append_assoc, append-nil, ◌==◌, if_cases,
}
use tiny_cplus.Prelude.Int.{ℤ}
use tiny_cplus.Machine.Block.{Block}
use tiny_cplus.Runtime.Future.{
  Continuation, Future, Handed, called, pooled, hand_to, hand_over, complete, then_do,
}
use mathlib.Core.Path.{subst}
use mathlib.Core.List.{
  reverse, reverse-append, flatten, Perm, perm_middle, perm_append_singleton, reverse_perm,
}
use mathlib.Core.List.Perm
use tiny_cplus.Runtime.Future.History.{History, when_zero, Takes, here, behind}

abbrev pub which : List Handed → List Continuation
which [] = []
which (called k ∷ hs) = k ∷ which hs
which (pooled k ∷ hs) = k ∷ which hs

-- Before completion the continuations are kept, and no call has one to hand over or has handed one
-- over. After it, the accepted ones are those handed over and those that calls still have to hand
-- over, each as often as it was accepted.
pub data Told (f : Future) (accepted : List Continuation) (held : List (List Continuation))
    (handed : List Handed) : Type 0 where
  kept :
      f.complete ≡ false
      → f.continuations ≡ reverse accepted
      → flatten held ≡ []
      → handed ≡ []
      → Told f accepted held handed
  told :
      f.complete ≡ true
      → f.continuations ≡ []
      → Perm accepted (which handed ++ flatten held)
      → Told f accepted held handed

pub which-append : (xs ys : List Handed) → which (xs ++ ys) ≡ which xs ++ which ys
which-append [] ys = refl
which-append (called k ∷ xs) ys = ap (λ z. k ∷ z) (which-append xs ys)
which-append (pooled k ∷ xs) ys = ap (λ z. k ∷ z) (which-append xs ys)

which-hand_to :
    (submits : ℕ → ℕ → ℕ) (pool : Option ℕ) (k : Continuation) (hs : List Handed)
    → which (hand_to submits pool k ∷ hs) ≡ k ∷ which hs
unfolding hand_to
which-hand_to submits none k hs = refl
which-hand_to submits (some p) k hs =
    if_cases (λ z. which (z ∷ hs) ≡ k ∷ which hs) (submits p k.action == 0) (λ e. refl) (λ e. refl)

reverse-snoc : (k : Continuation) (ks : List Continuation) → k ∷ reverse ks ≡ reverse (ks ++ k ∷ [])
reverse-snoc k ks = sym (reverse-append ks (k ∷ []))

Perm-Takes :
    {k : Continuation} {held rest : List (List Continuation)}
    → Takes k held rest
    → Perm (flatten held) (k ∷ flatten rest)
unfolding flatten
Perm-Takes here = Perm.refl _
Perm-Takes {k} (behind {ks} {others} {rest} t) =
    Perm.trans (Perm.append_left ks (Perm-Takes t)) (perm_middle ks (flatten rest))

unfoldable pub AfterThen : History → ℕ × Future × List Continuation → Continuation → Type 0
AfterThen h r k = Told r.1 (when_zero r.0 k h.accepted) (r.2 ∷ h.held) h.handed

pub Told-then :
    (memory : Bool) (k : Continuation) (h : History)
    → Told h.future h.accepted h.held h.handed
    → AfterThen h (then_do memory k h.future) k
unfolding then_do AfterThen flatten
Told-then memory k h t =
    if_cases (λ r. AfterThen h r k) memory
      (λ m.
        if_cases (λ r. AfterThen h r k) h.future.complete
          (λ c. elim t [
            | kept e f g i ↦ absurd (cc (sym e ∙ c))
            | told e f p ↦ told e f (
                Perm.trans (perm_append_singleton k h.accepted) (
                  Perm.trans (Perm.cons k p)
                    (Perm.symm (perm_middle (which h.handed) (flatten h.held)))))
          ])
          (λ c. elim t [
            | kept e f g i ↦ kept c (ap (λ z. k ∷ z) f ∙ reverse-snoc k h.accepted) g i
            | told e f p ↦ absurd (cc (sym c ∙ e))
          ]))
      (λ m. elim t [ kept e f g i ↦ kept e f g i | told e f p ↦ told e f p ])

unfoldable pub AfterComplete : History → ℕ × Future × List Continuation → Type 0
AfterComplete h r = Told r.1 h.accepted (r.2 ∷ h.held) h.handed

pub Told-complete :
    (value : Option Block) (error : ℤ) (h : History)
    → Told h.future h.accepted h.held h.handed
    → AfterComplete h (complete value error h.future)
unfolding complete AfterComplete flatten
Told-complete value error h t =
    if_cases (AfterComplete h) h.future.complete
      (λ c. elim t [ kept e f g i ↦ kept e f g i | told e f p ↦ told e f p ])
      (λ c. elim t [
        | kept e f g i ↦ told refl refl (
            subst (Perm h.accepted)
              (sym (
                ap (λ z. which z ++ (h.future.continuations ++ flatten h.held)) i
                ∙ ap (λ z. h.future.continuations ++ z) g
                ∙ append-nil h.future.continuations
                ∙ f))
              (Perm.symm (reverse_perm h.accepted)))
        | told e f p ↦ absurd (cc (sym c ∙ e))
      ])

-- What a call hands over, it holds, so the future is complete.
pub Told-hand :
    (submits : ℕ → ℕ → ℕ) (k : Continuation) (rest : List (List Continuation)) (h : History)
    → Takes k h.held rest
    → Told h.future h.accepted h.held h.handed
    → Told h.future h.accepted rest (h.handed ++ hand_over submits k ∷ [])
Told-hand submits k rest h t (kept e f g i) =
    absurd (cc (Perm.nil-eq (subst (λ z. Perm z (k ∷ flatten rest)) g (Perm-Takes t))))
Told-hand submits k rest h t (told e f p) =
    let moved : which (h.handed ++ hand_over submits k ∷ []) ++ flatten rest
        ≡ which h.handed ++ k ∷ flatten rest =
      ap (λ z. z ++ flatten rest)
        (which-append h.handed (hand_over submits k ∷ [])
          ∙ ap (λ z. which h.handed ++ z) (which-hand_to submits k.pool k []))
      ∙ append_assoc (which h.handed) (k ∷ []) (flatten rest) in
    told e f (
      subst (Perm h.accepted) (sym moved)
        (Perm.trans p (Perm.append_left (which h.handed) (Perm-Takes t))))
