-- ===== src/Runtime/Semaphore/Wakeups.antt =====
-- Any number of threads that wait and post, in any interleaving of their critical sections, with
-- the condition variable's queue.
use tiny_cplus.Prelude.{
  ℕ, zero, suc, ◌+◌, ◌-◌, ◌<◌, ◌≤◌, ◌≡◌, refl, ap, ◌⊎◌, inl, inr, none, some, arith, if_some,
  if_none, ◌%◌, ◌==◌,
}
use tiny_cplus.Machine.{add_size, sub_size, word}
use tiny_cplus.Runtime.Semaphore.{Semaphore, wait, post}

-- `parked` threads are in cond_wait; `woken` ones have left it and have not yet locked the mutex
-- again. `taken` waits have returned, and `posted` posts.
pub record Scene : Type 0 where
  pub semaphore : Semaphore
  pub parked : ℕ
  pub woken : ℕ
  pub taken : ℕ
  pub posted : ℕ

-- cond_signal wakes a parked thread if there is one.
unfoldable pub signal : ℕ × ℕ → ℕ × ℕ
signal (zero, w) = (zero, w)
signal (suc p, w) = (p, suc w)

abbrev pub started : ℕ → Scene
started n = record {
  semaphore = record { count = n };
  parked = 0;
  woken = 0;
  taken = 0;
  posted = 0;
}

-- A thread that calls wait takes or parks, and so does one that is woken; a post signals; and a
-- parked thread may wake without a signal.
pub data Step (h : Scene) : Scene → Type 0 where
  take_now :
      {s : Semaphore}
      → wait h.semaphore ≡ some s
      → Step h (record h { semaphore = s; taken = suc h.taken })
  park : wait h.semaphore ≡ none → Step h (record h { parked = suc h.parked })
  take_later :
      {s : Semaphore} {w : ℕ}
      → h.woken ≡ suc w
      → wait h.semaphore ≡ some s
      → Step h (record h { semaphore = s; woken = w; taken = suc h.taken })
  park_again :
      {w : ℕ}
      → h.woken ≡ suc w
      → wait h.semaphore ≡ none
      → Step h (record h { woken = w; parked = suc h.parked })
  release : Step h (record h {
    semaphore = post h.semaphore;
    parked = (signal (h.parked, h.woken)).0;
    woken = (signal (h.parked, h.woken)).1;
    posted = suc h.posted;
  })
  spurious : {p : ℕ} → h.parked ≡ suc p → Step h (record h { parked = p; woken = suc h.woken })

pub data Reach (n : ℕ) : Scene → Type 0 where
  start : Reach n (started n)
  later : {h k : Scene} → Reach n h → Step h k → Reach n k

pub record Inv (n : ℕ) (h : Scene) : Type 0 where
  -- A thread stays parked only while the woken ones can take all that there is.
  pub served : (h.parked ≡ 0) ⊎ (h.semaphore.count ≤ h.woken)
  pub bounded : h.semaphore.count < word
  pub granted : h.semaphore.count + h.taken ≤ n + h.posted
  pub exact : (word ≤ n + h.posted) ⊎ (h.semaphore.count + h.taken ≡ n + h.posted)

wait-some :
    (s : Semaphore) {t : Semaphore}
    → s.count < word
    → wait s ≡ some t
    → (0 < s.count) × (t.count + 1 ≡ s.count)
unfolding wait sub_size
wait-some s {t} h e =
    let (a, b) = if_some (s.count == 0) (record { count = sub_size s.count 1 }) t e in
    let more : 0 < s.count = ground arith in
    let is : (s.count + word - 1) % word ≡ t.count = ap (λ r. r.count) b in (more, omega arith)

wait-none : (s : Semaphore) → wait s ≡ none → s.count ≡ 0
unfolding wait
wait-none s e =
    let a = if_none (s.count == 0) (record { count = sub_size s.count 1 }) e in ground arith

post-count :
    (s : Semaphore)
    → s.count < word
    → ((post s).count < word)
      × (((post s).count ≡ s.count + 1) ⊎ ((s.count + 1 ≡ word) × ((post s).count ≡ s.count)))
unfolding post add_size
post-count s h = ground arith

signal-cases :
    (p w : ℕ)
    → ((p ≡ 0) × ((signal (p, w)).0 ≡ 0) × ((signal (p, w)).1 ≡ w))
      ⊎ ((p ≡ (signal (p, w)).0 + 1) × ((signal (p, w)).1 ≡ w + 1))
unfolding signal
signal-cases zero w = inl (refl, refl, refl)
signal-cases (suc p) w = inr (omega arith, omega arith)

Step-Inv : {n : ℕ} {h k : Scene} → Step h k → Inv n h → Inv n k
Step-Inv {n} {h} (take_now e) i =
    let (a, b) = wait-some h.semaphore i.bounded e in
    record {
      served = ground (arith, i.served);
      bounded = omega (arith, i.bounded);
      granted = omega (arith, i.granted);
      exact = ground (arith, i.exact);
    }
Step-Inv {n} {h} (park e) i =
    let z = wait-none h.semaphore e in
    record { served = inr (omega arith); bounded = i.bounded; granted = i.granted; exact = i.exact }
Step-Inv {n} {h} (take_later q e) i =
    let (a, b) = wait-some h.semaphore i.bounded e in
    record {
      served = ground (arith, i.served);
      bounded = omega (arith, i.bounded);
      granted = omega (arith, i.granted);
      exact = ground (arith, i.exact);
    }
Step-Inv {n} {h} (park_again q e) i =
    let z = wait-none h.semaphore e in
    record { served = inr (omega arith); bounded = i.bounded; granted = i.granted; exact = i.exact }
Step-Inv {n} {h} release i =
    let (a, b) = post-count h.semaphore i.bounded in
    record {
      served = ground (arith, i.served, signal-cases h.parked h.woken);
      bounded = a;
      granted = ground (arith, i.granted);
      exact = ground (arith, i.exact, i.granted);
    }
Step-Inv {n} {h} (spurious q) i = record {
  served = ground (arith, i.served);
  bounded = i.bounded;
  granted = i.granted;
  exact = i.exact;
}

Reach-Inv_of : {n : ℕ} {h : Scene} → n < word → Reach n h → Inv n h
Reach-Inv_of {n} less start = record {
  served = inl refl;
  bounded = less;
  granted = omega arith;
  exact = inr (omega arith);
}
Reach-Inv_of less (later r s) = Step-Inv s (Reach-Inv_of less r)

-- No wake-up is lost: however the threads interleave from a semaphore with fewer than 2^64 permits
-- on, if a permit is there while a thread is parked, then at least as many threads as there are
-- permits have been woken and come to take them.
pub no_lost_wakeup :
    {n : ℕ} {h : Scene} → n < word → Reach n h → 0 < h.parked → h.semaphore.count ≤ h.woken
no_lost_wakeup less r p = let i = Reach-Inv_of less r in ground (arith, i.served)

-- However the threads interleave from a semaphore with fewer than 2^64 permits on, the waits that
-- have returned and the permits left are no more than the first permits and the posts, and exactly
-- as many where these are fewer than 2^64 together.
pub conserved :
    {n : ℕ} {h : Scene}
    → n < word
    → Reach n h
    → (h.semaphore.count + h.taken ≤ n + h.posted)
      × ((word ≤ n + h.posted) ⊎ (h.semaphore.count + h.taken ≡ n + h.posted))
conserved less r = let i = Reach-Inv_of less r in (i.granted, i.exact)
