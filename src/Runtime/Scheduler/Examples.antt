-- ===== src/Runtime/Scheduler/Examples.antt =====
-- A task that has ended.
use tiny_cplus.Prelude.{◌<◌, ◌≡◌, refl, true, false, none, some, arith}
use tiny_cplus.Machine.{add_size}
use tiny_cplus.Runtime.Scheduler.{Scheduler, start, begin, shutdown}
use tiny_cplus.Runtime.Scheduler.Tasks.{
  Scene, after_begin, after_end, Reach, first, later, task_begins, task_ends, parks, shutdown_waits,
}

abbrev before : Scheduler
before = record { pool = none; pending = 0 }

abbrev idle : Scene
idle = record {
  scheduler = record { pool = some 9; pending = 0 };
  begun = 0;
  ended = 0;
  parked = false;
}

abbrev one_done : Scene
one_done = after_end (record (after_begin idle) { parked = true })

one_done-Reach : Reach 9 one_done
unfolding start begin shutdown add_size
one_done-Reach =
    later (later (later (first before refl refl) (task_begins (omega arith))) (parks refl))
      (task_ends (omega arith))

shutdown_waits_example :
    ((t : Scheduler)
      → shutdown one_done.scheduler ≡ some t
      → (one_done.begun ≡ one_done.ended) × (t.pool ≡ none))
    × (one_done.parked ≡ true → one_done.ended < one_done.begun)
shutdown_waits_example = shutdown_waits {made = 9} {h = one_done} one_done-Reach
