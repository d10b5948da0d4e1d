-- ===== src/Runtime/Pool/Workers.antt =====
-- The threads of a pool: any number of submitters, its workers and the thread that destroys it, in
-- any interleaving of their critical sections.
use tiny_cplus.Prelude.{ℕ, zero, suc, ◌+◌, ◌≡◌, Option, List, [], ◌∷◌, ◌++◌}
use tiny_cplus.Runtime.Pool.{Pool, new_pool, submit, waits, leaves, takes, next_job, stop}
use tiny_cplus.Runtime.Pool.Chain.{FreshOr}

-- `parked` workers are in cond_wait; `awake` ones are about to lock the mutex, for the first time,
-- after a job or after a wake-up; `running` ones are in their job's action; `left` ones have
-- returned. `accepted` are the jobs that tc_pool_submit returned 0 for, `begun` those that a worker
-- took, and `finished` counts the actions that have returned.
pub record Scene : Type 0 where
  pub pool : Pool
  pub parked : ℕ
  pub awake : ℕ
  pub running : ℕ
  pub left : ℕ
  pub accepted : List ℕ
  pub begun : List ℕ
  pub finished : ℕ

abbrev pub started : ℕ → Scene
started n = record {
  pool = new_pool;
  parked = 0;
  awake = n;
  running = 0;
  left = 0;
  accepted = [];
  begun = [];
  finished = 0;
}

-- cond_signal wakes a parked worker if there is one.
unfoldable pub signal : ℕ → Scene → Scene
signal zero h = h
signal (suc p) h = record h { parked = p; awake = suc h.awake }

-- Where the job was accepted, tc_pool_submit signals.
unfoldable pub answer : ℕ × Pool → ℕ → Scene → Scene
answer (zero, p) action h =
    signal h.parked (record h { pool = p; accepted = h.accepted ++ action ∷ [] })
answer (suc c, p) action h = record h { pool = p }

-- A call of `tc_pool_submit`
unfoldable pub after_submit : Option ℕ → ℕ → Scene → Scene
after_submit m action h = answer (submit m action h.pool) action h

-- `tc_pool_destroy` up to its joins: the broadcast wakes every parked worker.
unfoldable pub after_stop : Scene → Scene
after_stop h = record h { pool = stop h.pool; parked = 0; awake = h.parked + h.awake }

-- What a worker does: it locks the mutex and takes a job, parks or leaves, or its job ends.
pub data Work (h : Scene) : Scene → Type 0 where
  take_job :
      {w j : ℕ} {q : Pool}
      → h.awake ≡ suc w
      → next_job h.pool ≡ takes j q
      → Work h
          (record h { pool = q; awake = w; running = suc h.running; begun = h.begun ++ j ∷ [] })
  park :
      {w : ℕ}
      → h.awake ≡ suc w
      → next_job h.pool ≡ waits
      → Work h (record h { awake = w; parked = suc h.parked })
  leave :
      {w : ℕ}
      → h.awake ≡ suc w
      → next_job h.pool ≡ leaves
      → Work h (record h { awake = w; left = suc h.left })
  job_ends :
      {r : ℕ}
      → h.running ≡ suc r
      → Work h (record h { running = r; awake = suc h.awake; finished = suc h.finished })

-- A parked worker may also wake without a signal.
pub data Step (h : Scene) : Scene → Type 0 where
  by_submit : (m : Option ℕ) (action : ℕ) → FreshOr h.pool m → Step h (after_submit m action h)
  by_stop : Step h (after_stop h)
  by_work : {k : Scene} → Work h k → Step h k
  spurious : {p : ℕ} → h.parked ≡ suc p → Step h (record h { parked = p; awake = suc h.awake })

pub data Reach (n : ℕ) : Scene → Type 0 where
  start : Reach n (started n)
  later : {h k : Scene} → Reach n h → Step h k → Reach n k
