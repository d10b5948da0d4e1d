-- ===== src/Runtime/Pool/Examples.antt =====
-- A pool of one worker that runs one job and is destroyed.
use tiny_cplus.Prelude.{
  length, ℕ, ◌+◌, ◌<◌, ◌≤◌, ◌≡◌, refl, true, false, ◌⊎◌, none, some, List, [], ◌∷◌, ◌++◌, ltb,
  arith,
}
use tiny_cplus.Prelude.Int.{pos}
use tiny_cplus.Runtime.Pool.{
  Pool, new_pool, new_job, link_job, submit, next_job, stop, start_workers, create,
}
use tiny_cplus.Runtime.Pool.Chain.{Stands, Fresh, Submits, submit_refines}
use tiny_cplus.Runtime.Pool.Served.{cost, in_order_once, all_run, none_forgotten, workers_end}
use tiny_cplus.Runtime.Pool.Workers.{
  Scene, signal, answer, after_submit, after_stop, Work, take_job, park, leave, job_ends, Reach,
  start, later, by_submit, by_stop, by_work,
}

new_pool-Fresh : Fresh new_pool 8
new_pool-Fresh [] h = tt
new_pool-Fresh (a ∷ xs) h = absurd (cc h.chain.0)

abbrev one_job : Pool
one_job = link_job 8 (new_job 8 5 new_pool)

new_pool-Stands : Stands new_pool []
new_pool-Stands = record {
  places = [];
  holds = record { chain = refl; at_last = refl; distinct = tt };
  as_jobs = refl;
}

one_job-Stands : Stands one_job (5 ∷ [])
unfolding link_job
one_job-Stands = record {
  places = 8 ∷ [];
  holds = record { chain = (refl, refl); at_last = refl; distinct = (tt, tt) };
  as_jobs = refl;
}

abbrev parked_scene : Scene
parked_scene = record {
  pool = new_pool;
  parked = 1;
  awake = 0;
  running = 0;
  left = 0;
  accepted = [];
  begun = [];
  finished = 0;
}

parked_scene-Reach : Reach 1 parked_scene
unfolding next_job
parked_scene-Reach = later start (by_work (park refl refl))

abbrev submitted : Scene
submitted = after_submit (some 8) 5 parked_scene

submitted-Reach : Reach 1 submitted
submitted-Reach = later parked_scene-Reach (by_submit (some 8) 5 new_pool-Fresh)

abbrev stopped : Scene
stopped = after_stop submitted

stopped-Reach : Reach 1 stopped
stopped-Reach = later submitted-Reach by_stop

abbrev ended : Scene
ended = record {
  pool = record stopped.pool { head = none; tail = none };
  parked = 0;
  awake = 0;
  running = 0;
  left = 1;
  accepted = 5 ∷ [];
  begun = 5 ∷ [];
  finished = 1;
}

ended-Reach : Reach 1 ended
unfolding after_submit answer signal after_stop submit link_job stop next_job
ended-Reach =
    later (later (later stopped-Reach (by_work (take_job refl refl))) (by_work (job_ends refl)))
      (by_work (leave refl refl))

in_order_once_example :
    (queue : List ℕ) × Stands stopped.pool queue × (stopped.begun ++ queue ≡ stopped.accepted)
in_order_once_example = in_order_once {n = 1} {h = stopped} stopped-Reach

all_run_example : (ended.begun ≡ ended.accepted) × (ended.finished ≡ length ended.accepted)
all_run_example = all_run {n = 1} {h = ended} ended-Reach (omega arith) refl

none_forgotten_example : (0 ≤ 0 + 0) × (parked_scene.pool.stopping ≡ false)
none_forgotten_example = none_forgotten {n = 1} {h = parked_scene} parked_scene-Reach (omega arith)

workers_end_example :
    ((stopped.left ≡ 1) ⊎ ((k : Scene) × Work stopped k))
    × ((k : Scene) → Work stopped k → cost k < cost stopped)
unfolding after_submit answer signal after_stop submit link_job stop
workers_end_example = workers_end {n = 1} {h = stopped} stopped-Reach refl

submit_refines_example : Submits new_pool [] 5 (some 8) (submit (some 8) 5 new_pool)
submit_refines_example = submit_refines new_pool [] (some 8) 5 new_pool-Fresh new_pool-Stands

test_create : create (pos 2) true true (λ i. true) ≡ some (new_pool, 2)
unfolding create start_workers
test_create = refl

test_create_failing : create (pos 2) true true (λ i. ltb i 1) ≡ none
unfolding create start_workers
test_create_failing = refl

test_create-none : create (pos 0) true true (λ i. true) ≡ none
unfolding create
test_create-none = refl
