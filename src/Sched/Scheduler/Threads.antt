-- ===== src/Sched/Scheduler/Threads.antt =====
-- What a thread of kernel/sched/scheduler.c asks for itself and for others: to yield, block, sleep,
-- exit, wake another thread, and leave a ready queue.
use scarlett_os.Base.{
  ℕ, zero, suc, ◌+◌, ◌*◌, ◌/◌, ◌%◌, ◌^◌, Bool, true, false, Option, none, some, leb, ◌==◌,
  if◌then◌else◌,
}
use scarlett_os.Base.Update.{update}
use scarlett_os.Sched.Scheduler.{
  ThreadState, ready, blocked, sleeping, dead, Scheduler, runqueue, set_next, set_state,
  add_to_ready_queue, schedule, enter_blocked, max_cpus, priorities,
}

abbrev pub is_blocked : ThreadState → Bool
is_blocked blocked = true
is_blocked state = false

-- `thread_yield`
unfoldable pub thread_yield : (fuel cpu : ℕ) → Scheduler → Option Scheduler
unfolding schedule
thread_yield fuel cpu s = schedule fuel cpu s

-- `thread_block`
unfoldable pub thread_block : (fuel cpu : ℕ) → Scheduler → Option Scheduler
unfolding schedule
thread_block fuel cpu s = elim (enter_blocked cpu s) [
  | none ↦ none
  | some s' ↦ schedule fuel cpu s'
]

-- `while (current && current->next != thread)`; the answer 0 is that no thread comes before it.
unfoldable pub pred_of : ℕ → (ℕ → ℕ) → (thread p : ℕ) → Option ℕ
pred_of zero next thread p = none
pred_of (suc fuel) next thread p =
    let rest = pred_of fuel next thread (next p) in
    if p == 0 then some 0 else if next p == thread then some p else rest

-- The end of `thread_unblock`.
abbrev pub make_ready : (fuel thread cpu : ℕ) → Scheduler → Option Scheduler
make_ready fuel thread cpu s = add_to_ready_queue fuel thread cpu (set_state thread ready s)

-- The loop of `thread_unblock`, from the CPU `i` on with `left` to go.
unfoldable pub unblock_from : (left fuel thread cpu i : ℕ) → Scheduler → Option Scheduler
unfolding add_to_ready_queue pred_of
unblock_from zero fuel thread cpu i s = some s
unblock_from (suc left) fuel thread cpu i s =
    let rq = s.runqueues i in
    let others = unblock_from left fuel thread cpu (i + 1) s in
    if rq.locked
    then none
    else if rq.blocked_queue == thread
    then make_ready fuel thread cpu (record s {
      runqueues = update s.runqueues i (record rq { blocked_queue = s.next thread });
    })
    else elim (pred_of fuel s.next thread rq.blocked_queue) [
      | none ↦ none
      | some p ↦
          if p == 0 then others else make_ready fuel thread cpu (set_next p (s.next thread) s)
    ]

-- `thread_unblock`
unfoldable pub thread_unblock : (fuel thread cpu : ℕ) → Scheduler → Option Scheduler
unfolding unblock_from
thread_unblock fuel thread cpu s =
    if is_blocked (s.state thread) then unblock_from max_cpus fuel thread cpu 0 s else some s

-- `thread_sleep` up to its call of `scheduler_schedule`, at the time `ticks`.
abbrev pub enter_sleeping : (cpu ms ticks : ℕ) → Scheduler → Scheduler
enter_sleeping cpu ms ticks s =
    let thread = (runqueue cpu s).current_thread in
    let wait = ms * 100 % 2 ^ 64 / 1000 in
    record s {
      wakeup_time =
          update s.wakeup_time thread ((ticks + (if wait == 0 then 1 else wait)) % 2 ^ 64);
      state = update s.state thread sleeping;
      next = update s.next thread s.sleeping_queue;
      sleeping_queue = thread;
    }

-- `thread_sleep`
unfoldable pub thread_sleep : (fuel cpu ms ticks : ℕ) → Scheduler → Option Scheduler
unfolding schedule
thread_sleep fuel cpu ms ticks s =
    schedule fuel cpu (if ms == 0 then s else enter_sleeping cpu ms ticks s)

-- `thread_exit`
unfoldable pub thread_exit : (fuel cpu : ℕ) → Scheduler → Option Scheduler
unfolding schedule
thread_exit fuel cpu s =
    let thread = (runqueue cpu s).current_thread in
    schedule fuel cpu (record s {
      state = update s.state thread dead;
      thread_table = update s.thread_table (s.tid thread) 0;
    })

-- `remove_from_ready_queue`, from the CPU `i` on with `left` to go.
unfoldable pub remove_from_cpus : (left fuel thread i : ℕ) → Scheduler → Option Scheduler
unfolding pred_of
remove_from_cpus zero fuel thread i s = some s
remove_from_cpus (suc left) fuel thread i s =
    let rq = s.runqueues i in
    let head = rq.ready_queues (s.priority thread) in
    let others = remove_from_cpus left fuel thread (i + 1) s in
    if rq.locked
    then none
    else if head == thread
    then some (record s {
      runqueues =
          update s.runqueues i (record rq {
            ready_queues = update rq.ready_queues (s.priority thread) (s.next thread);
          });
    })
    else elim (pred_of fuel s.next thread head) [
      | none ↦ none
      | some p ↦ if p == 0 then others else some (set_next p (s.next thread) s)
    ]

unfoldable pub remove_from_ready_queue : (fuel thread : ℕ) → Scheduler → Option Scheduler
unfolding remove_from_cpus
remove_from_ready_queue fuel thread s =
    if leb priorities (s.priority thread) then none else remove_from_cpus max_cpus fuel thread 0 s
