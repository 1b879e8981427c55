-- ===== src/Sched/Scheduler/Start.antt =====
-- `scheduler_init` and `scheduler_init_per_cpu` of kernel/sched/scheduler.c, and the first
-- reschedules of a CPU without threads of its own.
use scarlett_os.Base.{
  ℕ, zero, suc, ◌+◌, ◌<◌, ◌≡◌, ◌≢◌, refl, ap, ◌∙◌, true, false, Option, none, some, leb, ◌==◌,
  if◌then◌else◌, arith, min,
}
use scarlett_os.Base.Update.{update, update_self, update_ne}
use scarlett_os.Sched.Scheduler.{
  Scheduler, Runqueue, ready, runqueue, set_head, is_running, max_cpus, put_back, pick_next_thread,
  take_first, schedule, cpu_index,
}
use scarlett_os.Sched.Scheduler.Pick.{highest_is}
use scarlett_os.Sched.Scheduler.Idle.{idle_hangs}

-- `init_idle_thread_for_cpu` and the lines before its call.
abbrev pub alone : (cpu idle : ℕ) → Scheduler → Scheduler
alone cpu idle s = record s {
  tid = update s.tid idle cpu;
  state = update s.state idle ready;
  priority = update s.priority idle 0;
  next = update s.next idle 0;
  cpu_time = update s.cpu_time idle 0;
  wakeup_time = update s.wakeup_time idle 0;
  runqueues = update s.runqueues cpu (record {
    locked = false;
    ready_queues = update (λ (j : ℕ). 0) 0 idle;
    blocked_queue = 0;
    current_thread = idle;
    idle_thread = idle;
  });
}

-- A CPU's run queue with its idle thread alone, and the idle thread, as `scheduler_init_per_cpu`
-- leaves them. `idle` is the answer of `kmalloc`; without memory the kernel stops.
unfoldable pub init_per_cpu : (cpu idle : ℕ) → Scheduler → Option Scheduler
init_per_cpu cpu idle s =
    if leb max_cpus cpu then some s else if idle == 0 then none else some (alone cpu idle s)

-- The loop of `scheduler_init` over the CPUs, from `i` on with `left` to go.
unfoldable pub init_cpus : (left i : ℕ) → (idles : ℕ → ℕ) → Scheduler → Option Scheduler
unfolding init_per_cpu
init_cpus zero i idles s = some s
init_cpus (suc left) i idles s = elim (init_per_cpu i (idles i) s) [
  | none ↦ none
  | some s' ↦ init_cpus left (i + 1) idles s'
]

-- `scheduler_init`, with the answer of `cpu_get_count`.
unfoldable pub scheduler_init : (count : ℕ) → (idles : ℕ → ℕ) → Scheduler → Option Scheduler
unfolding init_cpus
scheduler_init count idles s =
    init_cpus (min (if count == 0 then 1 else count) max_cpus) 0 idles
      (record s { thread_table = λ i. 0 })

-- A CPU that has its idle thread alone, and that in its queue.
record OnlyIdle (cpu idle : ℕ) (s : Scheduler) : Type 0 where
  free : (runqueue cpu s).locked ≡ false
  queues : (runqueue cpu s).ready_queues ≡ update (λ (j : ℕ). 0) 0 idle
  current : (runqueue cpu s).current_thread ≡ idle
  own : (runqueue cpu s).idle_thread ≡ idle
  end : s.next idle ≡ 0
  state : s.state idle ≡ ready

init_per_cpu-OnlyIdle :
    (cpu idle : ℕ) (s : Scheduler)
    → cpu < 256
    → idle ≢ 0
    → (s' : Scheduler) × (init_per_cpu cpu idle s ≡ some s') × OnlyIdle cpu idle s'
unfolding init_per_cpu
init_per_cpu-OnlyIdle cpu idle s lt nz =
    let inside : leb max_cpus cpu ≡ false = ground arith in
    let given : (idle == 0) ≡ false = ground arith in
    let rq : Runqueue = record {
      locked = false;
      ready_queues = update (λ (j : ℕ). 0) 0 idle;
      blocked_queue = 0;
      current_thread = idle;
      idle_thread = idle;
    } in
    let index : cpu_index cpu ≡ cpu = rw inside refl in
    let here : runqueue cpu (alone cpu idle s) ≡ rq =
      ap (alone cpu idle s).runqueues index ∙ update_self s.runqueues cpu rq in
    (
      alone cpu idle s,
      rw (init_per_cpu, inside, given) refl,
      record {
        free = ap (λ (r : Runqueue). r.locked) here;
        queues = ap (λ (r : Runqueue). r.ready_queues) here;
        current = ap (λ (r : Runqueue). r.current_thread) here;
        own = ap (λ (r : Runqueue). r.idle_thread) here;
        end = update_self s.next idle 0;
        state = update_self s.state idle ready;
      },
    )

-- The first reschedule of the idle thread picks it again, and takes it out of its queue for good.
first_schedule :
    (fuel cpu idle : ℕ) (s : Scheduler)
    → idle ≢ 0
    → OnlyIdle cpu idle s
    → schedule fuel cpu s ≡ some (set_head cpu 0 0 s)
unfolding schedule put_back pick_next_thread take_first
first_schedule fuel cpu idle s nz o =
    let rq = runqueue cpu s in
    let busy : (rq.current_thread == 0) ≡ false = ground (arith, o.current) in
    let waits : is_running (s.state rq.current_thread) ≡ false = rw (o.current, o.state) refl in
    let head : rq.ready_queues 0 ≡ idle = ap (λ (f : ℕ → ℕ). f 0) o.queues in
    let found = highest_is 128 0 rq.ready_queues (omega arith) (rw head nz) (λ j lt lt'.
      ap (λ (f : ℕ → ℕ). f j) o.queues ∙ update_ne (λ (j : ℕ). 0) 0 j idle (omega arith)) in
    let same : (idle == idle) ≡ true = ground arith in
    rw
      (
        schedule, busy, put_back, waits, pick_next_thread, o.free, found, take_first, head, o.own,
        same, o.end, o.current, same,
      )
      (rw o.free refl)

emptied : (idle j : ℕ) → update (update (λ (j : ℕ). 0) 0 idle) 0 0 j ≡ 0
emptied idle j = ground arith

-- A CPU that `scheduler_init_per_cpu` has set up and that has no thread of its own reschedules twice;
-- the third time it waits for good for its run queue's lock.
pub start_hangs :
    (first second cpu idle : ℕ) (s : Scheduler)
    → cpu < 256
    → idle ≢ 0
    → (s1 s2 s3 : Scheduler) × (init_per_cpu cpu idle s ≡ some s1)
      × (schedule first cpu s1 ≡ some s2)
      × (schedule second cpu s2 ≡ some s3)
      × ((later : ℕ) → schedule later cpu s3 ≡ none)
start_hangs first second cpu idle s lt nz =
    let (s1, made, o) = init_per_cpu-OnlyIdle cpu idle s lt nz in
    let rq = runqueue cpu s1 in
    let rq' : Runqueue = record rq { ready_queues = update rq.ready_queues 0 0 } in
    let s2 = set_head cpu 0 0 s1 in
    let here : runqueue cpu s2 ≡ rq' = update_self s1.runqueues (cpu_index cpu) rq' in
    let current : (runqueue cpu s2).current_thread ≡ idle =
      ap (λ (r : Runqueue). r.current_thread) here ∙ o.current in
    let empty : (j : ℕ) → (runqueue cpu s2).ready_queues j ≡ 0 = λ j.
      ap (λ (r : Runqueue). r.ready_queues j) here
      ∙ ap (λ (f : ℕ → ℕ). update f 0 0 j) o.queues
      ∙ emptied idle j in
    let (s3, done, stuck) =
      idle_hangs second cpu s2 (ap (λ (r : Runqueue). r.locked) here ∙ o.free) (rw current nz)
        (rw (ap (λ (r : Runqueue). r.idle_thread) here ∙ o.own) nz) (rw (current, o.state) refl)
        (λ j le. empty j) in
    (s1, s2, s3, made, first_schedule first cpu idle s1 nz o, done, stuck)
