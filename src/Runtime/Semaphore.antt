-- ===== src/Runtime/Semaphore.antt =====
-- runtime/concurrent.c: `TcSemaphore`, and the event that is built on it. Each operation is one
-- critical section of the mutex; where it would wait on the condition variable, the answer is none.
pub mod Wakeups
pub mod Examples
use tiny_cplus.Prelude.{ℕ, ◌-◌, Bool, true, false, Option, none, some, ltb, ◌==◌, if◌then◌else◌}
use tiny_cplus.Machine.{add_size, sub_size, word}

pub record Semaphore : Type 0 where
  pub count : ℕ

-- `tc_semaphore_create`; `calloc` says whether the struct is granted.
unfoldable pub create : Bool → ℕ → Option Semaphore
create calloc count = if calloc then some (record { count = count }) else none

-- `tc_semaphore_wait`: the decrement is that of a uint64_t.
unfoldable pub wait : Semaphore → Option Semaphore
wait s = if s.count == 0 then none else some (record { count = sub_size s.count 1 })

-- `tc_semaphore_post`, less the signal; UINT64_MAX is word - 1.
unfoldable pub post : Semaphore → Semaphore
post s = record { count = if ltb s.count (word - 1) then add_size s.count 1 else s.count }

unfoldable pub event_create : Bool → Option Semaphore
unfolding create
event_create calloc = create calloc 0

unfoldable pub event_wait : Semaphore → Option Semaphore
event_wait s = if s.count == 0 then none else some s

unfoldable pub set : Semaphore → Semaphore
set s = record { count = 1 }

unfoldable pub reset : Semaphore → Semaphore
reset s = record { count = 0 }
