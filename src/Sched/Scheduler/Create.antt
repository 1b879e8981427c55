-- ===== src/Sched/Scheduler/Create.antt =====
-- `thread_create` of kernel/sched/scheduler.c.
use mathlib.Core.Path.{subst}
use scarlett_os.Base.{
  ℕ, ◌+◌, ◌-◌, ◌%◌, ◌^◌, ◌≤◌, ◌<◌, ◌≡◌, ◌≢◌, refl, ap, ◌∙◌, inl, inr, Bool, true, false, some, List,
  [], ◌∷◌, ◌++◌, length, leb, ◌==◌, Bool-cases, arith,
}
use scarlett_os.Base.Update.{update, update_self}
use scarlett_os.Sched.Scheduler.{
  Scheduler, ThreadState, ready, runqueue, thread_create, max_threads,
}
use scarlett_os.Sched.Scheduler.Queue.{NotIn, Distinct, Holds-update}
use scarlett_os.Sched.Scheduler.Append.{Queued, add_to_ready_queue_lem}

-- A new thread as `thread_create` leaves it.
pub record Created (s : Scheduler) (cpu t priority : ℕ) (ts : List ℕ) (s' : Scheduler)
    : Type 0 where
  pub queue : Queued s' cpu priority (ts ++ t ∷ [])
  pub state : s'.state t ≡ ready
  pub entry : s'.thread_table s.next_tid ≡ t

-- The thread's fields and its entry, before it is put into a queue.
abbrev filled : (t priority : ℕ) → Scheduler → Scheduler
filled t priority s = record s {
  next_tid = (s.next_tid + 1) % 2 ^ 64;
  tid = update s.tid t s.next_tid;
  state = update s.state t ready;
  priority = update s.priority t priority;
  next = update s.next t 0;
  cpu_time = update s.cpu_time t 0;
  wakeup_time = update s.wakeup_time t 0;
  thread_table = update s.thread_table s.next_tid t;
}

-- With memory, while fewer than 256 ids have been given out, `thread_create` gives the next id to the
-- new thread, which is ready, in the table under the id and at the end of the queue of its priority.
pub thread_create_lem :
    (fuel cpu t priority : ℕ) (s : Scheduler) (ts : List ℕ)
    → (runqueue cpu s).locked ≡ false
    → priority < 128
    → s.next_tid < 256
    → t ≢ 0
    → Distinct ts
    → NotIn t ts
    → length ts < fuel
    → Queued s cpu priority ts
    → (s' : Scheduler) × (thread_create fuel cpu t true priority s ≡ some (s.next_tid, s'))
      × Created s cpu t priority ts s'
unfolding thread_create
thread_create_lem fuel cpu t priority s ts free p room nz d n enough q =
    let given : (t == 0) ≡ false = ground arith in
    let fits : leb max_threads s.next_tid ≡ false = ground arith in
    let kind : update s.priority t priority t ≡ priority = update_self s.priority t priority in
    let (s', done, added) =
      add_to_ready_queue_lem fuel t cpu (filled t priority s) ts free (rw kind p) nz d n enough
        (rw kind (Holds-update s.next t 0 ((runqueue cpu s).ready_queues priority) ts n q)) in
    (
      s',
      rw (thread_create, given, fits, done) refl,
      record {
        queue = subst (λ (i : ℕ). Queued s' cpu i (ts ++ t ∷ [])) kind added.queue;
        state = ap (λ (f : ℕ → ThreadState). f t) added.states ∙ update_self s.state t ready;
        entry =
            ap (λ (f : ℕ → ℕ). f s.next_tid) added.table ∙ update_self s.thread_table s.next_tid t;
      },
    )

-- Once 256 ids have been given out, no thread is created any more, and the ids go on being used up.
pub thread_create_exhausted :
    (fuel cpu memory : ℕ) (stack : Bool) (priority : ℕ) (s : Scheduler)
    → 256 ≤ s.next_tid
    → s.next_tid < 2 ^ 64 - 1
    → (s' : Scheduler) × (thread_create fuel cpu memory stack priority s ≡ some (0, s'))
      × (256 ≤ s'.next_tid)
unfolding thread_create
thread_create_exhausted fuel cpu memory stack priority s h k =
    let full : leb max_threads s.next_tid ≡ true = ground arith in
    elim (Bool-cases (memory == 0)) [
      | inl z ↦ (s, rw (thread_create, z) refl, h)
      | inr given ↦ elim (Bool-cases stack) [
        | inr z ↦ (s, rw (thread_create, given, z) refl, h)
        | inl room ↦ (
          record s { next_tid = (s.next_tid + 1) % 2 ^ 64 },
          rw (thread_create, given, room, full) refl,
          omega arith,
        )
      ]
    ]
