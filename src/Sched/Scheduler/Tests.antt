-- ===== src/Sched/Scheduler/Tests.antt =====
-- Runs of the functions of kernel/sched/scheduler.c.
use scarlett_os.Base.{ℕ, ◌≡◌, refl, false, none, some, [], ◌∷◌, arith}
use scarlett_os.Base.Update.{update}
use scarlett_os.Sched.Scheduler.{
  Scheduler, ready, running, blocked, set_state, runqueue, add_to_ready_queue, pick_next_thread,
  schedule,
}
use scarlett_os.Sched.Scheduler.Threads.{thread_block}
use scarlett_os.Sched.Scheduler.Append.{Queued, Added, add_to_ready_queue_lem}
use scarlett_os.Sched.Scheduler.Pick.{Picked, pick_next_thread_lem}
use scarlett_os.Sched.Scheduler.Requeue.{added_twice, blocked_stays}
use scarlett_os.Sched.Scheduler.Start.{init_per_cpu, start_hangs}

-- One CPU with the idle thread 1; the queues are arguments.
abbrev machine : (next : ℕ → ℕ) → (queues : ℕ → ℕ) → (current : ℕ) → Scheduler
machine next queues current = record {
  tid = λ t. t;
  state = λ t. ready;
  priority = λ t. 64;
  next = next;
  cpu_time = λ t. 0;
  wakeup_time = λ t. 0;
  runqueues = λ c. record {
    locked = false;
    ready_queues = queues;
    blocked_queue = 0;
    current_thread = current;
    idle_thread = 1;
  };
  sleeping_queue = 0;
  thread_table = λ i. 0;
  next_tid = 5;
  tick_counter = λ c. 0;
  need_reschedule = λ c. false;
}

-- The threads 2, 3 and 4 are ready, in this order.
abbrev three : Scheduler
three = machine (update (update (λ t. 0) 2 3) 3 4) (update (λ i. 0) 64 2) 1

add_to_ready_queue_lem_example :
    (s' : Scheduler) × (add_to_ready_queue 4 5 0 three ≡ some s')
    × Added three 0 64 5 (2 ∷ 3 ∷ 4 ∷ []) s'
add_to_ready_queue_lem_example =
    add_to_ready_queue_lem 4 5 0 three (2 ∷ 3 ∷ 4 ∷ []) refl (omega arith) (ground arith)
      ((ground arith, (ground arith, tt)), ((ground arith, tt), (tt, tt)))
      (ground arith, (ground arith, (ground arith, tt))) (omega arith)
      (refl, ground arith, (refl, ground arith, (refl, ground arith, refl)))

pick_next_thread_lem_example :
    (s' : Scheduler) × (pick_next_thread 4 0 three ≡ some (2, s'))
    × Picked three 0 64 2 (3 ∷ 4 ∷ []) s'
pick_next_thread_lem_example =
    pick_next_thread_lem 4 0 64 2 three (3 ∷ 4 ∷ []) refl (omega arith) (λ j lt lt'. ground arith)
      ((ground arith, (ground arith, tt)), ((ground arith, tt), (tt, tt))) (omega arith)
      (refl, ground arith, (refl, ground arith, (refl, ground arith, refl)))

added_twice_example :
    (s' : Scheduler) × (add_to_ready_queue 4 3 0 three ≡ some s') × Queued s' 0 64 (2 ∷ 3 ∷ [])
added_twice_example =
    added_twice 4 3 0 4 three (2 ∷ []) [] refl (omega arith) (ground arith, tt) (ground arith, tt)
      (omega arith) (refl, ground arith, (refl, ground arith, (refl, ground arith, refl)))

-- The thread 4 runs and ends the queue of 2, 3 and 4.
abbrev last_runs : Scheduler
last_runs = set_state 4 running (machine three.next (update (λ i. 0) 64 2) 4)

blocked_stays_example :
    (s' : Scheduler) × (thread_block 4 0 last_runs ≡ some s')
    × (s'.state 4 ≡ blocked)
    × ((runqueue 0 s').current_thread ≡ 2)
    × Queued s' 0 64 (3 ∷ 4 ∷ 2 ∷ [])
blocked_stays_example =
    blocked_stays 4 4 0 64 2 last_runs (3 ∷ []) [] refl refl (omega arith)
      (λ j lt lt'. ground arith)
      ((ground arith, (ground arith, tt)), ((ground arith, tt), (tt, tt))) (omega arith)
      (refl, ground arith, (refl, ground arith, (refl, ground arith, refl))) refl

-- No thread but the idle one.
abbrev nobody : Scheduler
nobody = machine (λ t. 0) (λ i. 0) 1

start_hangs_example :
    (s1 s2 s3 : Scheduler) × (init_per_cpu 0 1 nobody ≡ some s1)
    × (schedule 1 0 s1 ≡ some s2)
    × (schedule 1 0 s2 ≡ some s3)
    × ((later : ℕ) → schedule later 0 s3 ≡ none)
start_hangs_example = start_hangs 1 1 0 1 nobody (omega arith) (ground arith)
