-- ===== src/Sched/Scheduler.antt =====
-- kernel/sched/scheduler.c. A pointer to a thread is a number, 0 the null pointer; the fields of the
-- threads are functions of it. A function that waits for a spinlock that is held, follows a list
-- beyond the fuel, or uses a priority past the array answers `none`; the processor's switch to another
-- thread's registers is left out. Every function runs alone on its CPU.
pub mod Queue
pub mod Append
pub mod Pick
pub mod Requeue
pub mod Idle
pub mod Create
pub mod Threads
pub mod Start
pub mod Timer
mod Tests
use scarlett_os.Base.{
  ℕ, zero, suc, ◌+◌, ◌*◌, ◌/◌, ◌%◌, ◌^◌, Bool, true, false, not, ◌&&◌, Option, none, some, ltb, leb,
  ◌==◌, if◌then◌else◌,
}
use scarlett_os.Base.Update.{update}

-- `thread_state_t`
pub data ThreadState : Type 0 where
  ready running blocked sleeping dead : ThreadState

abbrev pub is_ready : ThreadState → Bool
is_ready ready = true
is_ready state = false

abbrev pub is_running : ThreadState → Bool
is_running running = true
is_running state = false

abbrev pub max_threads : ℕ
max_threads = 256

abbrev pub max_cpus : ℕ
max_cpus = 256

abbrev pub priorities : ℕ
priorities = 128

-- `per_cpu_runqueue_t`
pub record Runqueue : Type 0 where
  pub locked : Bool
  pub ready_queues : ℕ → ℕ
  pub blocked_queue : ℕ
  pub current_thread : ℕ
  pub idle_thread : ℕ

-- The fields of `thread_t` by the thread's address, and the scheduler's variables.
pub record Scheduler : Type 0 where
  pub tid : ℕ → ℕ
  pub state : ℕ → ThreadState
  pub priority : ℕ → ℕ
  pub next : ℕ → ℕ
  pub cpu_time : ℕ → ℕ
  pub wakeup_time : ℕ → ℕ
  pub runqueues : ℕ → Runqueue
  pub sleeping_queue : ℕ
  pub thread_table : ℕ → ℕ
  pub next_tid : ℕ
  pub tick_counter : ℕ → ℕ
  pub need_reschedule : ℕ → Bool

-- `get_current_runqueue`, and the same test in `add_to_ready_queue`.
abbrev pub cpu_index : ℕ → ℕ
cpu_index cpu = if leb max_cpus cpu then 0 else cpu

abbrev pub runqueue : ℕ → Scheduler → Runqueue
runqueue cpu s = s.runqueues (cpu_index cpu)

abbrev pub set_runqueue : ℕ → Runqueue → Scheduler → Scheduler
set_runqueue cpu rq s = record s { runqueues = update s.runqueues (cpu_index cpu) rq }

abbrev pub set_next : ℕ → ℕ → Scheduler → Scheduler
set_next thread target s = record s { next = update s.next thread target }

abbrev pub set_state : ℕ → ThreadState → Scheduler → Scheduler
set_state thread value s = record s { state = update s.state thread value }

abbrev pub set_head : (cpu priority thread : ℕ) → Scheduler → Scheduler
set_head cpu priority thread s =
    let rq = runqueue cpu s in
    set_runqueue cpu (record rq { ready_queues = update rq.ready_queues priority thread }) s

-- `while (current->next)`
unfoldable pub last_of : ℕ → (ℕ → ℕ) → ℕ → Option ℕ
last_of zero next p = none
last_of (suc fuel) next p =
    let rest = last_of fuel next (next p) in if next p == 0 then some p else rest

-- `current->next = thread; thread->next = NULL;`
abbrev pub link_last : ℕ → Scheduler → Option ℕ → Option Scheduler
link_last thread s none = none
link_last thread s (some last) = some (set_next thread 0 (set_next last thread s))

-- `add_to_ready_queue`
unfoldable pub add_to_ready_queue : (fuel thread cpu : ℕ) → Scheduler → Option Scheduler
unfolding last_of
add_to_ready_queue fuel thread cpu s =
    let head = (runqueue cpu s).ready_queues (s.priority thread) in
    if (runqueue cpu s).locked
    then none
    else if leb priorities (s.priority thread)
    then none
    else if head == 0
    then some (set_next thread 0 (set_head cpu (s.priority thread) thread s))
    else link_last thread s (last_of fuel s.next head)

-- The loop of `pick_next_thread` over the priorities, from `i` down.
unfoldable pub highest : ℕ → (ℕ → ℕ) → Option ℕ
highest zero queues = none
highest (suc i) queues = let rest = highest i queues in if queues i == 0 then rest else some i

-- `current->next = thread`
abbrev pub link_picked : ℕ → Scheduler → Option ℕ → Option (ℕ × Scheduler)
link_picked thread s none = none
link_picked thread s (some last) = some (thread, set_next last thread s)

-- The body of the loop for the priority `i`.
unfoldable pub take_first : (fuel cpu i : ℕ) → Scheduler → Option (ℕ × Scheduler)
unfolding last_of
take_first fuel cpu i s =
    let thread = (runqueue cpu s).ready_queues i in
    let rest = s.next thread in
    if not (thread == (runqueue cpu s).idle_thread) && is_ready (s.state thread)
    then if rest == 0
      then some (thread, set_next thread 0 (set_head cpu i thread s))
      else link_picked thread (set_next thread 0 (set_head cpu i rest s))
          (last_of fuel (update s.next thread 0) rest)
    else some (thread, set_head cpu i rest s)

-- `pick_next_thread`: without a thread in a queue it returns with the lock held.
unfoldable pub pick_next_thread : (fuel cpu : ℕ) → Scheduler → Option (ℕ × Scheduler)
unfolding highest take_first
pick_next_thread fuel cpu s =
    if (runqueue cpu s).locked
    then none
    else elim (highest priorities (runqueue cpu s).ready_queues) [
      | none ↦ some (
        (runqueue cpu s).idle_thread,
        set_runqueue cpu (record (runqueue cpu s) { locked = true }) s,
      )
      | some i ↦ take_first fuel cpu i s
    ]

-- The part of `scheduler_schedule` that puts the running thread back.
unfoldable pub put_back : (fuel cpu : ℕ) → Scheduler → Option Scheduler
unfolding add_to_ready_queue
put_back fuel cpu s =
    let old = (runqueue cpu s).current_thread in
    if is_running (s.state old)
    then if old == (runqueue cpu s).idle_thread
      then some (set_state old ready s)
      else add_to_ready_queue fuel old cpu (set_state old ready s)
    else some s

-- The part of `scheduler_schedule` behind the choice.
abbrev pub switch_to : (cpu old : ℕ) → Option (ℕ × Scheduler) → Option Scheduler
switch_to cpu old none = none
switch_to cpu old (some (new, s)) = some (
    if new == old
    then s
    else set_runqueue cpu (record (runqueue cpu s) { current_thread = new })
        (set_state new running s))

-- `scheduler_schedule`
unfoldable pub schedule : (fuel cpu : ℕ) → Scheduler → Option Scheduler
unfolding put_back pick_next_thread
schedule fuel cpu s =
    if (runqueue cpu s).current_thread == 0
    then some (
        set_runqueue cpu (record (runqueue cpu s) { current_thread = (runqueue cpu s).idle_thread })
          s)
    else elim (put_back fuel cpu s) [
      | none ↦ none
      | some s' ↦ switch_to cpu (runqueue cpu s).current_thread (pick_next_thread fuel cpu s')
    ]

-- `thread_block` up to its call of `scheduler_schedule`.
abbrev pub enter_blocked : (cpu : ℕ) → Scheduler → Option Scheduler
enter_blocked cpu s =
    let thread = (runqueue cpu s).current_thread in
    if (runqueue cpu s).locked
    then none
    else some (
        set_runqueue cpu (record (runqueue cpu s) { blocked_queue = thread })
          (set_next thread (runqueue cpu s).blocked_queue (set_state thread blocked s)))

-- `thread_create`: the answers of `kmalloc` for the thread and for its stack.
unfoldable pub thread_create :
    (fuel cpu : ℕ)
    → (memory : ℕ) → (stack : Bool) → (priority : ℕ) → Scheduler
    → Option (ℕ × Scheduler)
unfolding add_to_ready_queue
thread_create fuel cpu memory stack priority s =
    if memory == 0
    then some (0, s)
    else if stack
    then if leb max_threads s.next_tid
      then some (0, record s { next_tid = (s.next_tid + 1) % 2 ^ 64 })
      else elim (add_to_ready_queue fuel memory cpu (record s {
        next_tid = (s.next_tid + 1) % 2 ^ 64;
        tid = update s.tid memory s.next_tid;
        state = update s.state memory ready;
        priority = update s.priority memory priority;
        next = update s.next memory 0;
        cpu_time = update s.cpu_time memory 0;
        wakeup_time = update s.wakeup_time memory 0;
        thread_table = update s.thread_table s.next_tid memory;
      })) [ none ↦ none | some s' ↦ some (s.next_tid, s') ]
    else some (0, s)
