-- ===== src/Runtime/Pool.antt =====
-- runtime/concurrent.c: `TcJob` and `TcPool`. Each operation is one critical section of the pool's
-- mutex; where a worker would wait on the condition variable, it parks. Jobs are known by their
-- addresses.
pub mod Chain
pub mod Workers
pub mod Kept
pub mod Served
pub mod Examples
use tiny_cplus.Prelude.{
  ℕ, zero, suc, Bool, true, false, Option, none, some, ◌==◌, if◌then◌else◌, ltb, ◌||◌, not,
}
use tiny_cplus.Prelude.Int.{ℤ, pos, ltb_ℤ, pos_part}

-- The jobs that malloc has handed out: `link` is the field next, `job` the action and its argument.
pub record Pool : Type 0 where
  pub head : Option ℕ
  pub tail : Option ℕ
  pub link : ℕ → Option ℕ
  pub job : ℕ → ℕ
  pub stopping : Bool

abbrev pub set_at {ℓ} : {A : Type ℓ} → (ℕ → A) → ℕ → A → ℕ → A
set_at f a v i = if a == i then v else f i

-- `calloc` clears the pool.
abbrev pub new_pool : Pool
new_pool = record { head = none; tail = none; link = λ _. none; job = λ _. 0; stopping = false }

-- The assignments to the new job, before the mutex is locked
abbrev pub new_job : ℕ → ℕ → Pool → Pool
new_job a action p = record p { job = set_at p.job a action; link = set_at p.link a none }

-- `if (p->tail) p->tail->next = j; else p->head = j; p->tail = j;`
unfoldable pub link_job : ℕ → Pool → Pool
link_job a p = elim p.tail [
  | none ↦ record p { head = some a; tail = some a }
  | some t ↦ record p { link = set_at p.link t (some a); tail = some a }
]

-- `tc_pool_submit` of an action that is not NULL to a pool that is not: the code that it returns,
-- and whether a thread is signalled is whether that is 0. `malloc` is what malloc answers.
unfoldable pub submit : Option ℕ → ℕ → Pool → ℕ × Pool
submit none action p = (2, p)
submit (some a) action p = if p.stopping then (3, p) else (0, link_job a (new_job a action p))

-- What a worker finds under the mutex.
pub data Turn : Type 0 where
  waits leaves : Turn
  takes : ℕ → Pool → Turn

-- The critical section of `pool_worker`, up to the action of the job
unfoldable pub next_job : Pool → Turn
next_job p = elim p.head [
  | none ↦ if p.stopping then leaves else waits
  | some a ↦ elim (p.link a) [
    | none ↦ takes (p.job a) (record p { head = none; tail = none })
    | some b ↦ takes (p.job a) (record p { head = some b })
  ]
]

-- The critical section of `tc_pool_destroy`, less the broadcast
unfoldable pub stop : Pool → Pool
stop p = record p { stopping = true }

-- The loop of `tc_pool_create` that starts the workers from the ith on; `starts i` is whether the
-- system starts the ith thread.
unfoldable pub start_workers : (ℕ → Bool) → ℕ → ℕ → Option ℕ
start_workers starts i zero = some i
start_workers starts i (suc left) = if starts i then start_workers starts (suc i) left else none

-- `tc_pool_create` where `memory` and `threads_memory` are whether calloc finds memory: the pool and
-- the number of its workers.
unfoldable pub create : ℤ → Bool → Bool → (ℕ → Bool) → Option (Pool × ℕ)
create workers memory threads_memory starts =
    if ltb_ℤ workers (pos 1) || ltb_ℤ (pos 256) workers
    then none
    else if not memory || not threads_memory
    then none
    else elim (start_workers starts 0 (pos_part workers)) [
      | none ↦ none
      | some n ↦ some (new_pool, n)
    ]
