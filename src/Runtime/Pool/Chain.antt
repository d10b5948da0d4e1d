-- ===== src/Runtime/Pool/Chain.antt =====
-- The links of a pool's jobs stand for a queue.
use tiny_cplus.Prelude.{
  ℕ, ◌≡◌, refl, sym, ◌∙◌, true, false, Option, none, some, List, [], ◌∷◌, ◌++◌, ◌==◌, ==_iff,
  if_cases, Option-cases, inl, inr, arith,
}
use tiny_cplus.Runtime.Pool.{
  Pool, set_at, new_job, link_job, submit, Turn, waits, leaves, takes, next_job,
}

-- From a pointer on, the links go through these jobs.
abbrev pub Chain : (ℕ → Option ℕ) → Option ℕ → List ℕ → Type 0
Chain link h [] = h ≡ none
Chain link h (a ∷ xs) = (h ≡ some a) × Chain link (link a) xs

abbrev pub last : List ℕ → Option ℕ
last [] = none
last (a ∷ []) = some a
last (a ∷ b ∷ xs) = last (b ∷ xs)

abbrev pub Apart : ℕ → List ℕ → Type 0
Apart a [] = Unit
Apart a (b ∷ bs) = ((a == b) ≡ false) × Apart a bs

abbrev pub Distinct : List ℕ → Type 0
Distinct [] = Unit
Distinct (a ∷ xs) = Apart a xs × Distinct xs

abbrev pub jobs : (ℕ → ℕ) → List ℕ → List ℕ
jobs job [] = []
jobs job (a ∷ xs) = job a ∷ jobs job xs

-- The pool holds the jobs of these addresses, in this order.
pub record Holds (p : Pool) (xs : List ℕ) : Type 0 where
  pub chain : Chain p.link p.head xs
  pub at_last : p.tail ≡ last xs
  pub distinct : Distinct xs

-- Writing at an address that is not among them leaves them.
Chain-set_at :
    (link : ℕ → Option ℕ) (a : ℕ) (v h : Option ℕ) (xs : List ℕ)
    → Apart a xs
    → Chain link h xs
    → Chain (set_at link a v) h xs
Chain-set_at link a v h [] d c = c
Chain-set_at link a v h (b ∷ bs) (n, d) (e, c) = rw n (e, Chain-set_at link a v (link b) bs d c)

jobs-set_at :
    (job : ℕ → ℕ) (a v : ℕ) (xs : List ℕ) → Apart a xs → jobs (set_at job a v) xs ≡ jobs job xs
jobs-set_at job a v [] d = refl
jobs-set_at job a v (b ∷ bs) (n, d) = rw (n, jobs-set_at job a v bs d) refl

eq_self : (a : ℕ) → (a == a) ≡ true
eq_self a = (==_iff a a).1 refl

ne_sym : (a b : ℕ) → (a == b) ≡ false → (b == a) ≡ false
ne_sym a b h = ground arith

not_last : (b : ℕ) (xs : List ℕ) (t : ℕ) → Apart b xs → last xs ≡ some t → (b == t) ≡ false
not_last b [] t d l = absurd (cc l)
not_last b (x ∷ []) t d l = let e : x ≡ t = cc l in rw (sym e) d.0
not_last b (x ∷ y ∷ xs) t d l = not_last b (y ∷ xs) t d.1 l

last-some : (b : ℕ) (bs : List ℕ) → (t : ℕ) × (last (b ∷ bs) ≡ some t)
last-some b [] = (b, refl)
last-some b (c ∷ bs) = last-some c bs

last-append : (bs : List ℕ) (a : ℕ) → last (bs ++ a ∷ []) ≡ some a
last-append [] a = refl
last-append (b ∷ []) a = refl
last-append (b ∷ c ∷ bs) a = last-append (c ∷ bs) a

Apart-append :
    (b : ℕ) (bs : List ℕ) (a : ℕ) → Apart b bs → (b == a) ≡ false → Apart b (bs ++ a ∷ [])
Apart-append b [] a d n = (n, tt)
Apart-append b (c ∷ bs) a d n = (d.0, Apart-append b bs a d.1 n)

Distinct-append : (bs : List ℕ) (a : ℕ) → Distinct bs → Apart a bs → Distinct (bs ++ a ∷ [])
Distinct-append [] a d n = (tt, tt)
Distinct-append (b ∷ bs) a (n, d) (k, m) =
    (Apart-append b bs a n (ne_sym a b k), Distinct-append bs a d m)

-- The last job's link is set to a new one.
Chain-extend :
    (link : ℕ → Option ℕ) (h : Option ℕ) (b : ℕ) (bs : List ℕ) (t a : ℕ)
    → last (b ∷ bs) ≡ some t
    → Distinct (b ∷ bs)
    → Apart a (b ∷ bs)
    → link a ≡ none
    → Chain link h (b ∷ bs)
    → Chain (set_at link t (some a)) h ((b ∷ bs) ++ a ∷ [])
Chain-extend link h b [] t a l d n e (c, c') =
    let f : t ≡ b = cc l in rw (f, eq_self b, ne_sym a b n.0) (c, (refl, e))
Chain-extend link h b (b' ∷ bs) t a l d n e (c, c') =
    rw (ne_sym b t (not_last b (b' ∷ bs) t d.0 l))
      (c, Chain-extend link (link b) b' bs t a l d.1 n.1 e c')

Holds-link_job :
    (p : Pool) (xs : List ℕ) (a : ℕ)
    → Holds p xs
    → Apart a xs
    → p.link a ≡ none
    → Holds (link_job a p) (xs ++ a ∷ [])
unfolding link_job
Holds-link_job p [] a h d e =
    rw h.at_last (record { chain = (refl, e); at_last = refl; distinct = (tt, tt) })
Holds-link_job p (b ∷ bs) a h d e =
    let (t, f) = last-some b bs in
    rw (h.at_last ∙ f) (record {
      chain = Chain-extend p.link p.head b bs t a f h.distinct d e h.chain;
      at_last = sym (last-append (b ∷ bs) a);
      distinct = Distinct-append (b ∷ bs) a h.distinct d;
    })

job-link_job : (a : ℕ) (p : Pool) → (link_job a p).job ≡ p.job
unfolding link_job
job-link_job a p = elim (Option-cases p.tail) [ inl e ↦ rw e refl | inr (t, e) ↦ rw e refl ]

stopping-link_job : (a : ℕ) (p : Pool) → (link_job a p).stopping ≡ p.stopping
unfolding link_job
stopping-link_job a p = elim (Option-cases p.tail) [ inl e ↦ rw e refl | inr (t, e) ↦ rw e refl ]

Holds-new_job :
    (a action : ℕ) (p : Pool) (xs : List ℕ)
    → Apart a xs
    → Holds p xs
    → Holds (new_job a action p) xs
Holds-new_job a action p xs d h = record {
  chain = Chain-set_at p.link a none p.head xs d h.chain;
  at_last = h.at_last;
  distinct = h.distinct;
}

jobs-append :
    (job : ℕ → ℕ) (xs : List ℕ) (a : ℕ) → jobs job (xs ++ a ∷ []) ≡ jobs job xs ++ job a ∷ []
jobs-append job [] a = refl
jobs-append job (x ∷ xs) a = rw (jobs-append job xs a) refl

-- The pool stands for a queue of jobs.
pub record Stands (p : Pool) (js : List ℕ) : Type 0 where
  pub places : List ℕ
  pub holds : Holds p places
  pub as_jobs : jobs p.job places ≡ js

-- malloc hands out no memory that is in use.
abbrev pub Fresh : Pool → ℕ → Type 0
Fresh p a = (xs : List ℕ) → Holds p xs → Apart a xs

Stands-added :
    (p : Pool) (js : List ℕ) (a action : ℕ)
    → Fresh p a
    → Stands p js
    → Stands (link_job a (new_job a action p)) (js ++ action ∷ [])
Stands-added p js a action fresh s =
    let xs = s.places in
    let d = fresh xs s.holds in
    let q = new_job a action p in
    record {
      places = xs ++ a ∷ [];
      holds = Holds-link_job q xs a (Holds-new_job a action p xs d s.holds) d (rw (eq_self a) refl);
      as_jobs =
          rw
            (
              job-link_job a q,
              jobs-append q.job xs a,
              jobs-set_at p.job a action xs d,
              s.as_jobs,
              eq_self a,
            )
            refl;
    }

-- What `tc_pool_submit` makes of a pool that stands for a queue.
pub data Submits (p : Pool) (js : List ℕ) (action : ℕ) (m : Option ℕ) : ℕ × Pool → Type 0 where
  no_memory : {r : ℕ × Pool} → m ≡ none → r ≡ (2, p) → Submits p js action m r
  refused : {r : ℕ × Pool} → p.stopping ≡ true → r ≡ (3, p) → Submits p js action m r
  added :
      {r : ℕ × Pool}
      → p.stopping ≡ false
      → r.0 ≡ 0
      → r.1.stopping ≡ false
      → Stands r.1 (js ++ action ∷ [])
      → Submits p js action m r

abbrev pub FreshOr : Pool → Option ℕ → Type 0
FreshOr p none = Unit
FreshOr p (some a) = Fresh p a

-- On a pool that stands for a queue, and where malloc hands out no memory in use, `tc_pool_submit`
-- returns 2 without memory and 3 once the pool stops, both times leaving the pool, or else appends
-- the job to the queue.
pub submit_refines :
    (p : Pool) (js : List ℕ) (m : Option ℕ) (action : ℕ)
    → FreshOr p m
    → Stands p js
    → Submits p js action m (submit m action p)
unfolding submit
submit_refines p js none action f s = no_memory refl refl
submit_refines p js (some a) action f s =
    if_cases (Submits p js action (some a)) p.stopping (λ e. refused e refl)
      (λ e.
        added e refl (stopping-link_job a (new_job a action p) ∙ e)
          (Stands-added p js a action f s))

-- What a worker finds in a pool that stands for a queue.
pub data Finds (p : Pool) : List ℕ → Turn → Type 0 where
  none_yet : {js : List ℕ} {f : Turn} → js ≡ [] → p.stopping ≡ false → f ≡ waits → Finds p js f
  no_more : {js : List ℕ} {f : Turn} → js ≡ [] → p.stopping ≡ true → f ≡ leaves → Finds p js f
  first :
      {js rest : List ℕ} {f : Turn} {j : ℕ} {q : Pool}
      → js ≡ j ∷ rest
      → f ≡ takes j q
      → Stands q rest
      → q.stopping ≡ p.stopping
      → Finds p js f

found : (p : Pool) (js xs : List ℕ) → Holds p xs → jobs p.job xs ≡ js → Finds p js (next_job p)
unfolding next_job
found p js [] h e = rw h.chain (
    if_cases (Finds (record p { head = none }) js) p.stopping (λ k. no_more (sym e) k refl)
      (λ k. none_yet (sym e) k refl))
found p js (a ∷ []) h e =
    rw (h.chain.0, h.chain.1)
      (first (sym e) refl
        (record {
          places = [];
          holds = record { chain = refl; at_last = refl; distinct = tt };
          as_jobs = refl;
        })
        refl)
found p js (a ∷ b ∷ xs) h e =
    rw (h.chain.0, h.chain.1.0)
      (first (sym e) refl
        (record {
          places = b ∷ xs;
          holds = record {
            chain = (refl, h.chain.1.1);
            at_last = h.at_last;
            distinct = h.distinct.1;
          };
          as_jobs = refl;
        })
        refl)

-- In a pool that stands for a queue a worker takes the first job, which leaves the pool for the rest
-- of the queue; where there is none, it waits, or leaves once the pool stops.
pub next_job_refines : (p : Pool) (js : List ℕ) → Stands p js → Finds p js (next_job p)
next_job_refines p js s = found p js s.places s.holds s.as_jobs
