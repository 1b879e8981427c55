-- ===== src/Sched/Scheduler/Idle.antt =====
-- What `scheduler_schedule` of kernel/sched/scheduler.c does when no thread is in a queue.
use scarlett_os.Base.{
  ℕ, ◌<◌, ◌≡◌, ◌≢◌, refl, ap, ◌∙◌, inl, inr, true, false, none, some, ◌==◌, Bool-cases, arith,
}
use scarlett_os.Base.Update.{update_self}
use scarlett_os.Sched.Scheduler.{
  Scheduler, Runqueue, running, is_running, runqueue, set_runqueue, set_state, add_to_ready_queue,
  pick_next_thread, put_back, switch_to, schedule, cpu_index,
}
use scarlett_os.Sched.Scheduler.Pick.{highest-none}

-- With the lock held, nothing that needs the run queue goes on.
pub locked_schedule :
    (fuel cpu : ℕ) (s : Scheduler)
    → (runqueue cpu s).locked ≡ true
    → (runqueue cpu s).current_thread ≢ 0
    → schedule fuel cpu s ≡ none
unfolding schedule put_back add_to_ready_queue pick_next_thread
locked_schedule fuel cpu s held some_thread =
    let rq = runqueue cpu s in
    let busy : (rq.current_thread == 0) ≡ false = ground arith in
    elim (Bool-cases (is_running (s.state rq.current_thread))) [
      | inr r ↦ rw (schedule, busy, put_back, r, pick_next_thread, held) refl
      | inl r ↦ elim (Bool-cases (rq.current_thread == rq.idle_thread)) [
        | inl e ↦ rw (schedule, busy, put_back, r, e, pick_next_thread, held) refl
        | inr e ↦ rw (schedule, busy, put_back, r, e, add_to_ready_queue, held) refl
      ]
    ]

-- The choice without a thread in a queue: the idle thread, with the lock held.
abbrev pub hold : ℕ → Scheduler → Scheduler
hold cpu s = set_runqueue cpu (record (runqueue cpu s) { locked = true }) s

pick_idle :
    (fuel cpu : ℕ) (s : Scheduler)
    → (runqueue cpu s).locked ≡ false
    → ((j : ℕ) → j < 128 → (runqueue cpu s).ready_queues j ≡ 0)
    → pick_next_thread fuel cpu s ≡ some ((runqueue cpu s).idle_thread, hold cpu s)
unfolding pick_next_thread
pick_idle fuel cpu s free empty =
    rw (pick_next_thread, free, highest-none 128 (runqueue cpu s).ready_queues empty) refl

-- A run queue that nothing more can be done with.
record Stuck (cpu : ℕ) (s : Scheduler) : Type 0 where
  held : (runqueue cpu s).locked ≡ true
  busy : (runqueue cpu s).current_thread ≢ 0

Stuck-switch :
    (cpu : ℕ) (s : Scheduler)
    → (runqueue cpu s).current_thread ≢ 0
    → (runqueue cpu s).idle_thread ≢ 0
    → (s' : Scheduler) × (switch_to cpu
          (runqueue cpu s).current_thread
          (some ((runqueue cpu s).idle_thread, hold cpu s))
        ≡ some s')
      × Stuck cpu s'
Stuck-switch cpu s busy idle =
    let rq = runqueue cpu s in
    let held : Runqueue = record rq { locked = true } in
    let here : runqueue cpu (hold cpu s) ≡ held = update_self s.runqueues (cpu_index cpu) held in
    elim (Bool-cases (rq.idle_thread == rq.current_thread)) [
      | inl e ↦ (
        hold cpu s,
        rw e refl,
        record {
          held = ap (λ (r : Runqueue). r.locked) here;
          busy = rw (ap (λ (r : Runqueue). r.current_thread) here) busy;
        },
      )
      | inr e ↦
          let s1 = set_state rq.idle_thread running (hold cpu s) in
          let rq' : Runqueue = record (runqueue cpu s1) { current_thread = rq.idle_thread } in
          let there : runqueue cpu (set_runqueue cpu rq' s1) ≡ rq' =
            update_self s1.runqueues (cpu_index cpu) rq' in
          (
            set_runqueue cpu rq' s1,
            rw e refl,
            record {
              held = ap (λ (r : Runqueue). r.locked) there ∙ ap (λ (r : Runqueue). r.locked) here;
              busy = rw (ap (λ (r : Runqueue). r.current_thread) there) idle;
            },
          )
    ]

-- When a CPU reschedules and no thread is in a queue of its own, it goes to its idle thread with the
-- run queue's lock held, and every later `scheduler_schedule` on the CPU waits for that lock for good.
pub idle_hangs :
    (fuel cpu : ℕ) (s : Scheduler)
    → (runqueue cpu s).locked ≡ false
    → (runqueue cpu s).current_thread ≢ 0
    → (runqueue cpu s).idle_thread ≢ 0
    → is_running (s.state (runqueue cpu s).current_thread) ≡ false
    → ((j : ℕ) → j < 128 → (runqueue cpu s).ready_queues j ≡ 0)
    → (s' : Scheduler) × (schedule fuel cpu s ≡ some s')
      × ((later : ℕ) → schedule later cpu s' ≡ none)
unfolding schedule put_back
idle_hangs fuel cpu s free some_thread idle waits empty =
    let busy : ((runqueue cpu s).current_thread == 0) ≡ false = ground arith in
    let (s', done, stuck) = Stuck-switch cpu s some_thread idle in
    (
      s',
      rw (schedule, busy, put_back, waits, pick_idle fuel cpu s free empty) done,
      λ later. locked_schedule later cpu s' stuck.held stuck.busy,
    )
