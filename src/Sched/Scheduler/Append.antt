-- ===== src/Sched/Scheduler/Append.antt =====
-- `add_to_ready_queue` of kernel/sched/scheduler.c.
use mathlib.Core.Path.{subst}
use scarlett_os.Base.{
  ℕ, ◌<◌, ◌≡◌, ◌≢◌, refl, sym, ap, ◌∙◌, ◌⊎◌, inl, inr, true, false, some, List, [], ◌∷◌, ◌++◌,
  length, length-append, leb, ◌==◌, Bool-cases, arith,
}
use scarlett_os.Base.Update.{update, update_self}
use scarlett_os.Sched.Scheduler.{
  Scheduler, Runqueue, runqueue, set_head, set_next, add_to_ready_queue, priorities, cpu_index,
}
use scarlett_os.Sched.Scheduler.Queue.{
  Holds, NotIn, Distinct, Disjoint, Holds-update, Holds-append, last_of_lem, last_cases,
  NotIn-append, Distinct-last, Disjoint-last, Disjoint-parts, Holds-nonempty,
}

-- The ready queue of a CPU for a priority.
abbrev pub Queued : Scheduler → ℕ → ℕ → List ℕ → Type 0
Queued s cpu i ts = Holds s.next ((runqueue cpu s).ready_queues i) ts

-- The thread stands at the end of its queue, and the queues that have none of its threads are kept.
pub record Added (s : Scheduler) (cpu i t : ℕ) (ts : List ℕ) (s' : Scheduler) : Type 0 where
  pub queue : Queued s' cpu i (ts ++ t ∷ [])
  pub others :
      (c j : ℕ) (us : List ℕ)
      → (cpu_index c ≢ cpu_index cpu) ⊎ (j ≢ i)
      → Disjoint us (ts ++ t ∷ [])
      → Queued s c j us
      → Queued s' c j us
  pub states : s'.state ≡ s.state
  pub table : s'.thread_table ≡ s.thread_table

pub two_writes :
    (next : ℕ → ℕ) (last t u : ℕ) → u ≢ last → u ≢ t → update (update next last t) t 0 u ≡ next u
two_writes next last t u h k = ground arith

pub head_self :
    (cpu i v : ℕ) (s : Scheduler) → (runqueue cpu (set_head cpu i v s)).ready_queues i ≡ v
head_self cpu i v s =
    let rq = runqueue cpu s in
    ap (λ (r : Runqueue). r.ready_queues i)
      (update_self s.runqueues (cpu_index cpu)
        (record rq { ready_queues = update rq.ready_queues i v }))
    ∙ update_self rq.ready_queues i v

pub head_other :
    (cpu i v c j : ℕ) (s : Scheduler)
    → (cpu_index c ≢ cpu_index cpu) ⊎ (j ≢ i)
    → (runqueue c (set_head cpu i v s)).ready_queues j ≡ (runqueue c s).ready_queues j
head_other cpu i v c j s h = elim (Bool-cases (cpu_index cpu == cpu_index c)) [
  | inr e ↦ rw e refl
  | inl e ↦
      let same : cpu_index c ≡ cpu_index cpu = ground (arith, e) in
      elim h [
        | inl other ↦ absurd (other same)
        | inr other ↦
            let apart : (i == j) ≡ false = ground arith in
            rw (e, apart) (ap (λ (k : ℕ). (s.runqueues k).ready_queues j) (sym same))
      ]
]

empty-Added :
    (s : Scheduler) (cpu t : ℕ)
    → t ≢ 0
    → Added s cpu (s.priority t) t [] (set_next t 0 (set_head cpu (s.priority t) t s))
empty-Added s cpu t nz = record {
  queue = (head_self cpu (s.priority t) t s, nz, update_self s.next t 0);
  others = λ c j us apart (n, u) q.
      rw (head_other cpu (s.priority t) t c j s apart)
        (Holds-update s.next t 0 ((runqueue c s).ready_queues j) us n q);
  states = refl;
  table = refl;
}

linked-Added :
    (s : Scheduler) (cpu i t last : ℕ) (us : List ℕ)
    → t ≢ 0
    → Distinct (us ++ last ∷ [])
    → NotIn t (us ++ last ∷ [])
    → Queued s cpu i (us ++ last ∷ [])
    → Added s cpu i t (us ++ last ∷ []) (set_next t 0 (set_next last t s))
linked-Added s cpu i t last us nz d n q =
    let (before, other) = NotIn-append t last us n in
    let apart : (t == last) ≡ false = ground arith in
    record {
      queue =
          Holds-append s.next (update (update s.next last t) t 0) ((runqueue cpu s).ready_queues i)
            last t us (rw apart (update_self s.next last t))
            (update_self (update s.next last t) t 0) (two_writes s.next last t)
            (Distinct-last last us d) before nz q;
      others = λ c j vs place h r.
          let (h', to_t) = Disjoint-parts vs t (us ++ last ∷ []) h in
          Holds-update (update s.next last t) t 0 ((runqueue c s).ready_queues j) vs to_t (
            Holds-update s.next last t ((runqueue c s).ready_queues j) vs
              (Disjoint-last vs last us h') r);
      states = refl;
      table = refl;
    }

-- With fuel for the queue's length, `add_to_ready_queue` puts a thread that is in no queue behind the
-- others of its priority, and changes no other queue.
pub add_to_ready_queue_lem :
    (fuel t cpu : ℕ) (s : Scheduler) (ts : List ℕ)
    → (runqueue cpu s).locked ≡ false
    → s.priority t < 128
    → t ≢ 0
    → Distinct ts
    → NotIn t ts
    → length ts < fuel
    → Queued s cpu (s.priority t) ts
    → (s' : Scheduler) × (add_to_ready_queue fuel t cpu s ≡ some s')
      × Added s cpu (s.priority t) t ts s'
unfolding add_to_ready_queue
add_to_ready_queue_lem fuel t cpu s ts free p nz d n enough q =
    let fits : leb priorities (s.priority t) ≡ false = ground arith in
    elim (last_cases ts) [
      | inl e ↦
          let empty : Holds s.next ((runqueue cpu s).ready_queues (s.priority t)) [] =
            subst (λ (l : List ℕ). Queued s cpu (s.priority t) l) e q in
          let no_head : ((runqueue cpu s).ready_queues (s.priority t) == 0) ≡ true =
            rw empty refl in
          (
            set_next t 0 (set_head cpu (s.priority t) t s),
            rw (add_to_ready_queue, free, fits, no_head) refl,
            subst
                (λ (l : List ℕ).
                  Added s cpu (s.priority t) t l (set_next t 0 (set_head cpu (s.priority t) t s)))
                (sym e) (empty-Added s cpu t nz),
          )
      | inr (us, last, e) ↦
          let q' : Queued s cpu (s.priority t) (us ++ last ∷ []) =
            subst (λ (l : List ℕ). Queued s cpu (s.priority t) l) e q in
          let enough' : length us < fuel =
            omega (arith, ap (λ (l : List ℕ). length l) e, length-append us (last ∷ [])) in
          let head : ((runqueue cpu s).ready_queues (s.priority t) == 0) ≡ false = ground (
            arith,
            Holds-nonempty s.next ((runqueue cpu s).ready_queues (s.priority t)) last us q',
          ) in
          let walk =
            last_of_lem fuel s.next ((runqueue cpu s).ready_queues (s.priority t)) last us q'
              enough' in
          (
            set_next t 0 (set_next last t s),
            rw (add_to_ready_queue, free, fits, head, walk) refl,
            subst
                (λ (l : List ℕ). Added s cpu (s.priority t) t l (set_next t 0 (set_next last t s)))
                (sym e)
                (linked-Added s cpu (s.priority t) t last us nz (subst Distinct e d)
                  (subst (NotIn t) e n) q'),
          )
    ]
