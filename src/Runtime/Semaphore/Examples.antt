-- ===== src/Runtime/Semaphore/Examples.antt =====
-- The semaphore on short runs.
use tiny_cplus.Prelude.{◌+◌, ◌≤◌, ◌-◌, ◌≡◌, ◌⊎◌, refl, none, some, arith}
use tiny_cplus.Machine.{word, add_size}
use tiny_cplus.Runtime.Semaphore.{wait, post, event_wait, set, reset}
use tiny_cplus.Runtime.Semaphore.Wakeups.{
  Scene, signal, Reach, start, later, park, release, no_lost_wakeup, conserved,
}

-- Two threads wait for the first permit, and then it is posted.
abbrev one_left : Scene
one_left = record { semaphore = record { count = 1 }; parked = 1; woken = 1; taken = 0; posted = 1 }

one_left-Reach : Reach 0 one_left
unfolding wait post signal add_size
one_left-Reach = later (later (later start (park refl)) (park refl)) release

no_lost_wakeup_example : 1 ≤ 1
no_lost_wakeup_example =
    no_lost_wakeup {n = 0} {h = one_left} (omega arith) one_left-Reach (omega arith)

conserved_example : (1 + 0 ≤ 0 + 1) × ((word ≤ 0 + 1) ⊎ (1 + 0 ≡ 0 + 1))
conserved_example = conserved {n = 0} {h = one_left} (omega arith) one_left-Reach

test_full : post (record { count = word - 1 }) ≡ record { count = word - 1 }
unfolding post
test_full = refl

test_event : event_wait (set (record { count = 0 })) ≡ some (record { count = 1 })
unfolding event_wait set
test_event = refl

test_reset : event_wait (reset (set (record { count = 0 }))) ≡ none
unfolding event_wait reset
test_reset = refl
