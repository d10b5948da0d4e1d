-- ===== src/Runtime/Pool/Kept.antt =====
-- The invariant of a pool and its threads.
use tiny_cplus.Prelude.{
  ℕ, zero, suc, ◌+◌, ◌≤◌, ◌≡◌, refl, sym, ap, ◌∙◌, ◌⊎◌, inl, inr, true, false, Option, List, [],
  ◌∷◌, ◌++◌, append_assoc, length, length-append, arith,
}
use mathlib.Core.Path.{subst}
use tiny_cplus.Runtime.Pool.{Pool, new_pool, submit, waits, leaves, takes, stop}
use tiny_cplus.Runtime.Pool.Chain.{
  Stands, Submits, no_memory, refused, added, submit_refines, Finds, none_yet, no_more, first,
  next_job_refines,
}
use tiny_cplus.Runtime.Pool.Workers.{
  Scene, signal, answer, after_submit, after_stop, Work, Step, Reach, take_job, park, leave,
  job_ends, by_submit, by_stop, by_work, spurious, start, later,
}

pub record Inv (n : ℕ) (h : Scene) : Type 0 where
  pub queue : List ℕ
  pub stands : Stands h.pool queue
  pub in_order : h.begun ++ queue ≡ h.accepted
  pub all_workers : h.parked + h.awake + h.running + h.left ≡ n
  pub all_jobs : h.finished + h.running ≡ length h.begun
  -- A worker stays parked only while the others that come can take all jobs.
  pub served : (h.parked ≡ 0) ⊎ (length queue ≤ h.awake)
  pub none_parked : h.pool.stopping ≡ true → h.parked ≡ 0
  pub only_at_end : (h.left ≡ 0) ⊎ ((h.pool.stopping ≡ true) × (queue ≡ []))

-- With the first job's queue, which a worker that finds `takes` needs
pub takes-first :
    {p : Pool} {js : List ℕ} {j : ℕ} {q : Pool}
    → Finds p js (takes j q)
    → (rest : List ℕ) × (js ≡ j ∷ rest) × Stands q rest × (q.stopping ≡ p.stopping)
takes-first (none_yet e k f) = absurd (cc f)
takes-first (no_more e k f) = absurd (cc f)
takes-first {p} {js} {j} {q} (first {rest} {j = i} {q = r} e f s k) =
    let same_job : i ≡ j = cc f in
    let same_pool : r ≡ q = cc f in
    (
      rest,
      e ∙ ap (λ z. z ∷ rest) same_job,
      subst (λ z. Stands z rest) same_pool s,
      sym (ap (λ z. z.stopping) same_pool) ∙ k,
    )

pub waits-none : {p : Pool} {js : List ℕ} → Finds p js waits → (js ≡ []) × (p.stopping ≡ false)
waits-none (none_yet e k f) = (e, k)
waits-none (no_more e k f) = absurd (cc f)
waits-none (first e f s k) = absurd (cc f)

leaves-none : {p : Pool} {js : List ℕ} → Finds p js leaves → (js ≡ []) × (p.stopping ≡ true)
leaves-none (none_yet e k f) = absurd (cc f)
leaves-none (no_more e k f) = (e, k)
leaves-none (first e f s k) = absurd (cc f)

awaken :
    {n p : ℕ} (h : Scene)
    → h.parked ≡ suc p
    → Inv n h
    → Inv n (record h { parked = p; awake = suc h.awake })
awaken h e i = record {
  queue = i.queue;
  stands = i.stands;
  in_order = i.in_order;
  all_workers = omega (arith, i.all_workers);
  all_jobs = i.all_jobs;
  served = ground (arith, i.served);
  none_parked = λ k. let z = i.none_parked k in absurd (omega arith);
  only_at_end = i.only_at_end;
}

not_left : {n : ℕ} {h : Scene} (i : Inv n h) → h.pool.stopping ≡ false → h.left ≡ 0
not_left i e = elim i.only_at_end [ inl z ↦ z | inr (k, l) ↦ absurd (cc (sym e ∙ k)) ]

-- A job is added and a worker signalled.
Inv-accept :
    {n : ℕ} (h : Scene) (i : Inv n h) (q : Pool) (action : ℕ) (p : ℕ)
    → h.parked ≡ p
    → h.pool.stopping ≡ false
    → q.stopping ≡ false
    → Stands q (i.queue ++ action ∷ [])
    → Inv n (signal p (record h { pool = q; accepted = h.accepted ++ action ∷ [] }))
unfolding signal
Inv-accept h i q action zero e f g s = record {
  queue = i.queue ++ action ∷ [];
  stands = s;
  in_order =
      sym (append_assoc h.begun i.queue (action ∷ [])) ∙ ap (λ z. z ++ action ∷ []) i.in_order;
  all_workers = i.all_workers;
  all_jobs = i.all_jobs;
  served = inl e;
  none_parked = λ k. e;
  only_at_end = inl (not_left i f);
}
Inv-accept h i q action (suc p) e f g s = record {
  queue = i.queue ++ action ∷ [];
  stands = s;
  in_order =
      sym (append_assoc h.begun i.queue (action ∷ [])) ∙ ap (λ z. z ++ action ∷ []) i.in_order;
  all_workers = omega (arith, i.all_workers);
  all_jobs = i.all_jobs;
  served = ground (arith, i.served, length-append i.queue (action ∷ []));
  none_parked = λ k. absurd (cc (sym g ∙ k));
  only_at_end = inl (not_left i f);
}

Inv-answer :
    {n : ℕ} (h : Scene) (m : Option ℕ) (action : ℕ) (r : ℕ × Pool) (i : Inv n h)
    → Submits h.pool i.queue action m r
    → Inv n (answer r action h)
unfolding answer
Inv-answer {n} h m action r i (no_memory e f) = subst (λ z. Inv n (answer z action h)) (sym f) i
Inv-answer {n} h m action r i (refused e f) = subst (λ z. Inv n (answer z action h)) (sym f) i
Inv-answer {n} h m action (zero, q) i (added e z g s) = Inv-accept h i q action h.parked refl e g s
Inv-answer {n} h m action (suc c, q) i (added e z g s) = absurd (omega arith)

Inv-stop : {n : ℕ} (h : Scene) → Inv n h → Inv n (after_stop h)
unfolding after_stop stop
Inv-stop h i = record {
  queue = i.queue;
  stands = record {
    places = i.stands.places;
    holds = record {
      chain = i.stands.holds.chain;
      at_last = i.stands.holds.at_last;
      distinct = i.stands.holds.distinct;
    };
    as_jobs = i.stands.as_jobs;
  };
  in_order = i.in_order;
  all_workers = omega (arith, i.all_workers);
  all_jobs = i.all_jobs;
  served = inl refl;
  none_parked = λ k. refl;
  only_at_end = elim i.only_at_end [ inl z ↦ inl z | inr (k, l) ↦ inr (refl, l) ];
}

Inv-Work : {n : ℕ} {h k : Scene} → Work h k → Inv n h → Inv n k
Inv-Work {n} {h} (take_job {w} {j} {q} e f) i =
    let (rest, l, s, g) =
      takes-first (subst (Finds h.pool i.queue) f (next_job_refines h.pool i.queue i.stands)) in
    record {
      queue = rest;
      stands = s;
      in_order = append_assoc h.begun (j ∷ []) rest ∙ ap (λ z. h.begun ++ z) (sym l) ∙ i.in_order;
      all_workers = omega (arith, i.all_workers);
      all_jobs = omega (arith, i.all_jobs, length-append h.begun (j ∷ []));
      served = ground (arith, i.served, ap length l);
      none_parked = λ k. i.none_parked (sym g ∙ k);
      only_at_end = elim i.only_at_end [ inl z ↦ inl z | inr (k, m) ↦ absurd (cc (sym m ∙ l)) ];
    }
Inv-Work {n} {h} (park e f) i =
    let (l, g) =
      waits-none (subst (Finds h.pool i.queue) f (next_job_refines h.pool i.queue i.stands)) in
    record {
      queue = i.queue;
      stands = i.stands;
      in_order = i.in_order;
      all_workers = omega (arith, i.all_workers);
      all_jobs = i.all_jobs;
      served = inr (omega (arith, ap length l));
      none_parked = λ k. absurd (cc (sym g ∙ k));
      only_at_end = i.only_at_end;
    }
Inv-Work {n} {h} (leave e f) i =
    let (l, g) =
      leaves-none (subst (Finds h.pool i.queue) f (next_job_refines h.pool i.queue i.stands)) in
    record {
      queue = i.queue;
      stands = i.stands;
      in_order = i.in_order;
      all_workers = omega (arith, i.all_workers);
      all_jobs = i.all_jobs;
      served = inr (omega (arith, ap length l));
      none_parked = i.none_parked;
      only_at_end = inr (g, l);
    }
Inv-Work {n} {h} (job_ends e) i = record {
  queue = i.queue;
  stands = i.stands;
  in_order = i.in_order;
  all_workers = omega (arith, i.all_workers);
  all_jobs = omega (arith, i.all_jobs);
  served = ground (arith, i.served);
  none_parked = i.none_parked;
  only_at_end = i.only_at_end;
}

Inv-Step : {n : ℕ} {h k : Scene} → Step h k → Inv n h → Inv n k
unfolding after_submit
Inv-Step {h} (by_submit m action f) i =
    Inv-answer h m action (submit m action h.pool) i
      (submit_refines h.pool i.queue m action f i.stands)
Inv-Step {h} by_stop i = Inv-stop h i
Inv-Step (by_work w) i = Inv-Work w i
Inv-Step {h} (spurious e) i = awaken h e i

new_pool-Stands : Stands new_pool []
new_pool-Stands = record {
  places = [];
  holds = record { chain = refl; at_last = refl; distinct = tt };
  as_jobs = refl;
}

pub Reach-Inv : {n : ℕ} {h : Scene} → Reach n h → Inv n h
Reach-Inv {n} start = record {
  queue = [];
  stands = new_pool-Stands;
  in_order = refl;
  all_workers = omega arith;
  all_jobs = refl;
  served = inl refl;
  none_parked = λ k. refl;
  only_at_end = inl refl;
}
Reach-Inv (later r s) = Inv-Step s (Reach-Inv r)
