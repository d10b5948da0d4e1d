-- ===== src/Runtime/Scheduler/Tasks.antt =====
-- The tasks of a program and its shutdown, in any interleaving of their critical sections.
use tiny_cplus.Prelude.{
  ℕ, ◌+◌, ◌-◌, ◌<◌, ◌≡◌, refl, sym, ap, ◌∙◌, ◌⊎◌, inl, inr, Bool, true, false, none, some, ◌==◌,
  if◌then◌else◌, if_cases, arith,
}
use mathlib.Core.Path.{subst}
use tiny_cplus.Machine.{word, add_size-eq, sub_size-eq}
use tiny_cplus.Runtime.Scheduler.{Scheduler, start_from, shutdown_from, start, begin, end, shutdown}

-- `begun` and `ended` count the calls of tc_task_begin and tc_task_end; `parked` is whether the
-- shutdown is in cond_wait.
pub record Scene : Type 0 where
  pub scheduler : Scheduler
  pub begun : ℕ
  pub ended : ℕ
  pub parked : Bool

abbrev pub after_begin : Scene → Scene
after_begin h = record h { scheduler = begin h.scheduler; begun = h.begun + 1 }

-- cond_broadcast wakes the shutdown.
abbrev pub after_end : Scene → Scene
after_end h = record h {
  scheduler = (end h.scheduler).1;
  ended = h.ended + 1;
  parked = if (end h.scheduler).0 then false else h.parked;
}

-- A task ends once, after its begin, and fewer than 2^64 are pending.
pub data Step (h : Scene) : Scene → Type 0 where
  task_begins : h.begun + 1 < h.ended + word → Step h (after_begin h)
  task_ends : h.ended < h.begun → Step h (after_end h)
  parks : shutdown h.scheduler ≡ none → Step h (record h { parked = true })
  wakes : Step h (record h { parked = false })

pub data Reach (made : ℕ) : Scene → Type 0 where
  first :
      {s : Scheduler} (z : Scheduler)
      → z.pool ≡ none
      → start (some made) z ≡ some s
      → Reach made (record { scheduler = s; begun = 0; ended = 0; parked = false })
  later : {h k : Scene} → Reach made h → Step h k → Reach made k

pub record Inv (made : ℕ) (h : Scene) : Type 0 where
  pub started : h.scheduler.pool ≡ some made
  pub balanced : h.ended + h.scheduler.pending ≡ h.begun
  pub bounded : h.scheduler.pending < word
  pub awaited : (h.parked ≡ false) ⊎ (0 < h.scheduler.pending)

start-fresh :
    (made : ℕ) (z s : Scheduler)
    → z.pool ≡ none
    → start (some made) z ≡ some s
    → (s.pool ≡ some made) × (s.pending ≡ 0)
unfolding start
start-fresh made z s e f =
    let g : s ≡ record { pool = some made; pending = 0 } =
      cc (subst (λ o. start_from o (some made) z ≡ some s) e f) in
    (ap (λ x. x.pool) g, ap (λ x. x.pending) g)

shutdown-none : (s : Scheduler) {p : ℕ} → s.pool ≡ some p → shutdown s ≡ none → 0 < s.pending
unfolding shutdown
shutdown-none s e f =
    if_cases (λ o. o ≡ none → 0 < s.pending) (s.pending == 0) (λ z k. absurd (cc k))
      (λ z k. ground arith) (subst (λ o. shutdown_from o s ≡ none) e f)

shutdown-some :
    (s : Scheduler) {p : ℕ} {t : Scheduler}
    → s.pool ≡ some p
    → shutdown s ≡ some t
    → (s.pending ≡ 0) × (t.pool ≡ none)
unfolding shutdown
shutdown-some s {t = t} e f =
    if_cases (λ o. o ≡ some t → (s.pending ≡ 0) × (t.pool ≡ none)) (s.pending == 0)
      (λ z k.
        let g : record s { pool = none } ≡ t = cc k in (ground arith, sym (ap (λ x. x.pool) g)))
      (λ z k. absurd (cc k)) (subst (λ o. shutdown_from o s ≡ some t) e f)

begin-pending : (s : Scheduler) → s.pending + 1 < word → (begin s).pending ≡ s.pending + 1
unfolding begin
begin-pending s h = add_size-eq s.pending 1 h

begin-pool : (s : Scheduler) → (begin s).pool ≡ s.pool
unfolding begin
begin-pool s = refl

end-pool : (s : Scheduler) → (end s).1.pool ≡ s.pool
unfolding end
end-pool s = refl

end-pending :
    (s : Scheduler)
    → 0 < s.pending
    → s.pending < word
    → ((end s).1.pending ≡ s.pending - 1) × ((end s).0 ≡ (s.pending - 1 == 0))
unfolding end
end-pending s h k = let e = sub_size-eq s.pending 1 (omega arith) k in (e, ap (λ n. n == 0) e)

still_awaited : (b p : Bool) (n : ℕ) → b ≡ (n == 0) → ((if b then false else p) ≡ false) ⊎ (0 < n)
still_awaited b p n e = ground arith

Inv-Step : {made : ℕ} {h k : Scene} → Step h k → Inv made h → Inv made k
Inv-Step {made} {h} (task_begins l) i =
    let e = begin-pending h.scheduler (omega (arith, i.balanced)) in
    record {
      started = begin-pool h.scheduler ∙ i.started;
      balanced = omega (arith, i.balanced);
      bounded = omega (arith, i.balanced);
      awaited = inr (omega arith);
    }
Inv-Step {made} {h} (task_ends l) i =
    let (e, f) = end-pending h.scheduler (omega (arith, i.balanced)) i.bounded in
    record {
      started = end-pool h.scheduler ∙ i.started;
      balanced = omega (arith, i.balanced);
      bounded = omega (arith, i.bounded);
      awaited =
          still_awaited (end h.scheduler).0 h.parked (end h.scheduler).1.pending
            (f ∙ ap (λ n. n == 0) (sym e));
    }
Inv-Step {h} (parks e) i = record {
  started = i.started;
  balanced = i.balanced;
  bounded = i.bounded;
  awaited = inr (shutdown-none h.scheduler i.started e);
}
Inv-Step wakes i = record {
  started = i.started;
  balanced = i.balanced;
  bounded = i.bounded;
  awaited = inl refl;
}

Reach-Inv_of : {made : ℕ} {h : Scene} → Reach made h → Inv made h
Reach-Inv_of {made} (first {s} z e f) =
    let (p, n) = start-fresh made z s e f in
    record { started = p; balanced = omega arith; bounded = omega arith; awaited = inl refl }
Reach-Inv_of (later r s) = Inv-Step s (Reach-Inv_of r)

-- However tasks and the shutdown interleave, where each task ends once and fewer than 2^64 are
-- pending at once: the shutdown passes its wait only when every task that began has ended, and it
-- stays parked only while a task that began has not ended.
pub shutdown_waits :
    {made : ℕ} {h : Scene}
    → Reach made h
    → ((t : Scheduler) → shutdown h.scheduler ≡ some t → (h.begun ≡ h.ended) × (t.pool ≡ none))
      × (h.parked ≡ true → h.ended < h.begun)
shutdown_waits {made} {h} r =
    let i = Reach-Inv_of r in
    (
      λ t e. let (z, n) = shutdown-some h.scheduler i.started e in (omega (arith, i.balanced), n),
      λ p. elim i.awaited [ inl f ↦ absurd (cc (sym f ∙ p)) | inr l ↦ omega (arith, i.balanced) ],
    )
