-- ===== src/Runtime/Scheduler.antt =====
-- runtime/concurrent.c: the scheduler of a generated program, with its count of pending tasks. Each
-- operation is one critical section of the task mutex; where the shutdown would wait on the condition
-- variable, it answers none.
pub mod Tasks
pub mod Examples
use tiny_cplus.Prelude.{ℕ, zero, suc, Bool, Option, none, some, ◌==◌, if◌then◌else◌}
use tiny_cplus.Machine.{add_size, sub_size}

-- The globals `tc_default_pool` and `tc_pending_tasks`
pub record Scheduler : Type 0 where
  pub pool : Option ℕ
  pub pending : ℕ

abbrev pub start_from : Option ℕ → Option ℕ → Scheduler → Option Scheduler
start_from (some p) made s = some s
start_from none none s = none
start_from none (some p) s = some (record { pool = some p; pending = 0 })

-- `tc_scheduler_start`, where `made` is what tc_pool_create answers; none where it aborts
unfoldable pub start : Option ℕ → Scheduler → Option Scheduler
start made s = start_from s.pool made s

-- `tc_task_begin`
unfoldable pub begin : Scheduler → Scheduler
begin s = record s { pending = add_size s.pending 1 }

-- `tc_task_end`, and whether it wakes the shutdown
unfoldable pub end : Scheduler → Bool × Scheduler
end s = (sub_size s.pending 1 == 0, record s { pending = sub_size s.pending 1 })

abbrev pub shutdown_from : Option ℕ → Scheduler → Option Scheduler
shutdown_from none s = some s
shutdown_from (some p) s = if s.pending == 0 then some (record s { pool = none }) else none

-- `tc_scheduler_shutdown`: none where it has to wait, or else the scheduler without the pool, which
-- is destroyed
unfoldable pub shutdown : Scheduler → Option Scheduler
shutdown s = shutdown_from s.pool s
