-- ===== src/Runtime/Pool/Served.antt =====
-- What the invariant of a pool and its threads says of its jobs.
use tiny_cplus.Prelude.{
  ℕ, zero, suc, ◌+◌, ◌-◌, ◌*◌, ◌<◌, ◌≤◌, ◌≡◌, refl, sym, ap, ◌∙◌, ◌⊎◌, inl, inr, Bool-cases, true,
  false, List, [], ◌∷◌, ◌++◌, append-nil, length, length-append, arith,
}
use mathlib.Core.Path.{subst}
use tiny_cplus.Runtime.Pool.{Turn, waits, leaves, takes, next_job}
use tiny_cplus.Runtime.Pool.Chain.{Stands, Finds, next_job_refines}
use tiny_cplus.Runtime.Pool.Workers.{Scene, Work, Reach, take_job, park, leave, job_ends}
use tiny_cplus.Runtime.Pool.Kept.{Inv, takes-first, waits-none, Reach-Inv}

-- However submitters, workers and the destruction of the pool interleave: the pool stands for the
-- queue of those accepted jobs that no worker has begun, so that the jobs are begun in the order in
-- which they were accepted and each of them once.
pub in_order_once :
    {n : ℕ} {h : Scene}
    → Reach n h
    → (queue : List ℕ) × Stands h.pool queue × (h.begun ++ queue ≡ h.accepted)
in_order_once r = let i = Reach-Inv r in (i.queue, i.stands, i.in_order)

-- In a pool of at least one worker whose workers have all returned, which is what tc_pool_destroy
-- waits for, the jobs that workers have begun are those that were accepted, in the order of
-- acceptance, and as many have been run to their end, in whatever order.
pub all_run :
    {n : ℕ} {h : Scene}
    → Reach n h
    → 0 < n
    → h.left ≡ n
    → (h.begun ≡ h.accepted) × (h.finished ≡ length h.accepted)
all_run {n} {h} r more e =
    let i = Reach-Inv r in
    let empty : i.queue ≡ [] = elim i.only_at_end [
      | inl z ↦ absurd (omega arith)
      | inr (k, l) ↦ l
    ] in
    let same : h.begun ≡ h.accepted =
      sym (append-nil h.begun) ∙ ap (λ z. h.begun ++ z) (sym empty) ∙ i.in_order in
    (same, omega (arith, i.all_jobs, i.all_workers, ap length same))

-- No wake-up is lost: while a worker is parked, at least as many others are awake as there are jobs
-- that were accepted and not begun, and once the pool stops none is parked.
pub none_forgotten :
    {n : ℕ} {h : Scene}
    → Reach n h
    → 0 < h.parked
    → (length h.accepted ≤ length h.begun + h.awake) × (h.pool.stopping ≡ false)
none_forgotten {n} {h} r p =
    let i = Reach-Inv r in
    let size : length h.begun + length i.queue ≡ length h.accepted =
      sym (length-append h.begun i.queue) ∙ ap length i.in_order in
    (
      ground (arith, i.served),
      elim (Bool-cases h.pool.stopping) [
        | inl e ↦ absurd (omega (arith, i.none_parked e))
        | inr e ↦ e
      ],
    )

-- What the workers have left to do
abbrev pub cost : Scene → ℕ
cost h = 2 * (length h.accepted - length h.begun) + 2 * h.running + h.awake

Work-cost : {n : ℕ} {h k : Scene} → Inv n h → h.pool.stopping ≡ true → Work h k → cost k < cost h
Work-cost {n} {h} i e (take_job {w} {j} {q} a f) =
    let (rest, l, s, g) =
      takes-first (subst (Finds h.pool i.queue) f (next_job_refines h.pool i.queue i.stands)) in
    let size : length h.begun + length i.queue ≡ length h.accepted =
      sym (length-append h.begun i.queue) ∙ ap length i.in_order in
    omega (arith, ap length l, length-append h.begun (j ∷ []))
Work-cost {n} {h} i e (park a f) =
    let (l, g) =
      waits-none (subst (Finds h.pool i.queue) f (next_job_refines h.pool i.queue i.stands)) in
    absurd (cc (sym g ∙ e))
Work-cost i e (leave a f) = omega arith
Work-cost i e (job_ends a) = omega arith

pred : (n : ℕ) → (n ≡ 0) ⊎ ((m : ℕ) × (n ≡ suc m))
pred zero = inl refl
pred (suc n) = inr (n, refl)

can_lock :
    {h : Scene} {w : ℕ} {js : List ℕ} (f : Turn)
    → h.pool.stopping ≡ true
    → h.awake ≡ suc w
    → next_job h.pool ≡ f
    → Finds h.pool js f
    → (k : Scene) × Work h k
can_lock waits s a e x = absurd (cc (sym (waits-none x).1 ∙ s))
can_lock leaves s a e x = (_, leave a e)
can_lock (takes j q) s a e x = (_, take_job a e)

-- Once the pool stops, its workers come to an end: unless all have returned, one of them can go on,
-- and whatever a worker does lowers what they have left to do.
pub workers_end :
    {n : ℕ} {h : Scene}
    → Reach n h
    → h.pool.stopping ≡ true
    → ((h.left ≡ n) ⊎ ((k : Scene) × Work h k)) × ((k : Scene) → Work h k → cost k < cost h)
workers_end {n} {h} r e =
    let i = Reach-Inv r in
    (
      elim (pred h.running) [
        | inr (m, a) ↦ inr (_, job_ends a)
        | inl a ↦ elim (pred h.awake) [
          | inr (m, b) ↦
              inr (can_lock (next_job h.pool) e b refl (next_job_refines h.pool i.queue i.stands))
          | inl b ↦ inl (omega (arith, i.all_workers, i.none_parked e))
        ]
      ],
      λ k. Work-cost i e,
    )
