-- ===== src/Sched/Scheduler/Requeue.antt =====
-- What becomes of a thread of kernel/sched/scheduler.c that is in a ready queue already, as every
-- thread is that `pick_next_thread` has put behind the others.
use mathlib.Core.Path.{subst}
use mathlib.Core.List.{append_assoc}
use scarlett_os.Base.{
  ℕ, ◌<◌, ◌≡◌, ◌≢◌, refl, sym, ap, ◌∙◌, false, Option, none, if◌then◌else◌, some, List, [], ◌∷◌,
  ◌++◌, length, leb, ◌==◌, arith,
}
use scarlett_os.Base.Update.{update, update_self, update_ne}
use scarlett_os.Sched.Scheduler.{
  ThreadState, Scheduler, Runqueue, blocked, running, runqueue, set_runqueue, set_state, set_next,
  add_to_ready_queue, enter_blocked, priorities, cpu_index, schedule, pick_next_thread,
}
use scarlett_os.Sched.Scheduler.Pick.{rotates, pick_next_thread_lem}
use scarlett_os.Sched.Scheduler.Threads.{thread_block}
use scarlett_os.Sched.Scheduler.Queue.{
  Holds, NotIn, Distinct, Holds-update, Holds-cut, Holds-join, last_of_lem, Holds-nonempty,
}
use scarlett_os.Sched.Scheduler.Append.{Queued, two_writes}

-- When a thread is added to the queue that it is in, all that stand behind it are lost from the queue.
pub added_twice :
    (fuel t cpu last : ℕ) (s : Scheduler) (before behind : List ℕ)
    → (runqueue cpu s).locked ≡ false
    → s.priority t < 128
    → NotIn t before
    → NotIn last before
    → length (before ++ t ∷ behind) < fuel
    → Queued s cpu (s.priority t) ((before ++ t ∷ behind) ++ last ∷ [])
    → (s' : Scheduler) × (add_to_ready_queue fuel t cpu s ≡ some s')
      × Queued s' cpu (s.priority t) (before ++ t ∷ [])
unfolding add_to_ready_queue
added_twice fuel t cpu last s before behind free p n m enough q =
    let fits : leb priorities (s.priority t) ≡ false = ground arith in
    let first = (runqueue cpu s).ready_queues (s.priority t) in
    let head : (first == 0) ≡ false =
      ground (arith, Holds-nonempty s.next first last (before ++ t ∷ behind) q) in
    let walk = last_of_lem fuel s.next first last (before ++ t ∷ behind) q enough in
    (
      set_next t 0 (set_next last t s),
      rw (add_to_ready_queue, free, fits, head, walk) refl,
      Holds-cut s.next (update (update s.next last t) t 0) first last t before (behind ++ last ∷ [])
          (update_self (update s.next last t) t 0) (two_writes s.next last t) m n
          (subst (Holds s.next first) (append_assoc before (t ∷ behind) (last ∷ [])) q),
    )

NotIn-mid : (t u : ℕ) (ts us : List ℕ) → NotIn t (ts ++ u ∷ us) → NotIn t ts × (t ≢ u) × NotIn t us
NotIn-mid t u [] us (h, hs) = (tt, h, hs)
NotIn-mid t u (x ∷ xs) us (h, hs) =
    let (rest, other, behind) = NotIn-mid t u xs us hs in ((h, rest), other, behind)

Distinct-mid : (t : ℕ) (ts us : List ℕ) → Distinct (ts ++ t ∷ us) → NotIn t ts × NotIn t us
Distinct-mid t [] us (h, d) = (tt, h)
Distinct-mid t (x ∷ xs) us (h, d) =
    let (before, other, behind) = NotIn-mid x t xs us h in
    let (left, right) = Distinct-mid t xs us d in ((λ q. other (sym q), left), right)

Holds-mid : (next : ℕ → ℕ) (p t : ℕ) (ts us : List ℕ) → Holds next p (ts ++ t ∷ us) → t ≢ 0
Holds-mid next p t [] us (e, n, h) = n
Holds-mid next p t (x ∷ xs) us (e, n, h) = Holds-mid next (next x) t xs us h

-- What `enter_blocked` makes of the thread `t`.
abbrev pub left_running : (t cpu : ℕ) → Scheduler → Scheduler
left_running t cpu s =
    set_runqueue cpu (record (runqueue cpu s) { blocked_queue = t })
      (set_next t (runqueue cpu s).blocked_queue (set_state t blocked s))

left_running-runqueue :
    (t cpu : ℕ) (s : Scheduler)
    → runqueue cpu (left_running t cpu s) ≡ record (runqueue cpu s) { blocked_queue = t }
left_running-runqueue t cpu s =
    update_self s.runqueues (cpu_index cpu) (record (runqueue cpu s) { blocked_queue = t })

-- The thread stays in its ready queue, with the threads that were blocked before behind it.
left_running-Queued :
    (t cpu i : ℕ) (s : Scheduler) (before blocked_before : List ℕ)
    → NotIn t before
    → NotIn t blocked_before
    → Queued s cpu i (before ++ t ∷ [])
    → Holds s.next (runqueue cpu s).blocked_queue blocked_before
    → Queued (left_running t cpu s) cpu i (before ++ t ∷ blocked_before)
left_running-Queued t cpu i s before blocked_before n m q b =
    let rq = runqueue cpu s in
    let next' = update s.next t rq.blocked_queue in
    let kept : Holds next' rq.blocked_queue blocked_before =
      Holds-update s.next t rq.blocked_queue rq.blocked_queue blocked_before m b in
    let joined : Holds next' (rq.ready_queues i) (before ++ t ∷ blocked_before) =
      Holds-join s.next next' (rq.ready_queues i) t rq.blocked_queue before blocked_before
        (update_self s.next t rq.blocked_queue)
        (λ u h. update_ne s.next t u rq.blocked_queue (λ z. h (sym z))) n kept q in
    subst (λ (r : Runqueue). Holds next' (r.ready_queues i) (before ++ t ∷ blocked_before))
      (sym (left_running-runqueue t cpu s)) joined

entered :
    (t cpu : ℕ) (s : Scheduler)
    → (runqueue cpu s).locked ≡ false
    → (runqueue cpu s).current_thread ≡ t
    → enter_blocked cpu s ≡ some (left_running t cpu s)
entered t cpu s free current = rw (free, current) refl

blocks :
    (fuel t cpu : ℕ) (s : Scheduler)
    → (runqueue cpu s).locked ≡ false
    → (runqueue cpu s).current_thread ≡ t
    → thread_block fuel cpu s ≡ schedule fuel cpu (left_running t cpu s)
unfolding thread_block schedule
blocks fuel t cpu s free current =
    ap (λ (o : Option Scheduler). elim o [ none ↦ none | some s' ↦ schedule fuel cpu s' ])
      (entered t cpu s free current)

-- The choice of another thread than the running one, which is not put back.
switched :
    (fuel cpu t b : ℕ) (s s' : Scheduler)
    → (runqueue cpu s).current_thread ≡ t
    → t ≢ 0
    → b ≢ t
    → s.state t ≡ blocked
    → pick_next_thread fuel cpu s ≡ some (b, s')
    → schedule fuel cpu s
      ≡ some (
          set_runqueue cpu
            (record (runqueue cpu s') { current_thread = b })
            (set_state b running s'))
unfolding schedule
switched fuel cpu t b s s' current nz other state picked =
    let runs : (t == 0) ≡ false = ground arith in
    let differs : (b == t) ≡ false = ground arith in
    rw (schedule, current, runs, state, picked, current, differs) refl

-- Let the running thread end the ready queue of the highest priority, behind another thread, with no
-- thread twice in this queue and the list of blocked threads, a free lock and fuel for both lengths.
-- When it calls `thread_block`, the thread at the front runs, and the blocked one is still in the
-- ready queue, with the threads that were blocked before behind it; the thread that now runs is put
-- behind them if it was ready and is not the idle thread.
pub blocked_stays :
    (fuel t cpu i b : ℕ) (s : Scheduler) (between blocked_before : List ℕ)
    → (runqueue cpu s).locked ≡ false
    → (runqueue cpu s).current_thread ≡ t
    → i < 128
    → ((j : ℕ) → i < j → j < 128 → (runqueue cpu s).ready_queues j ≡ 0)
    → Distinct (b ∷ (between ++ t ∷ blocked_before))
    → length (between ++ t ∷ blocked_before) < fuel
    → Queued s cpu i ((b ∷ between) ++ t ∷ [])
    → Holds s.next (runqueue cpu s).blocked_queue blocked_before
    → (s' : Scheduler) × (thread_block fuel cpu s ≡ some s')
      × (s'.state t ≡ blocked)
      × ((runqueue cpu s').current_thread ≡ b)
      × Queued s' cpu i (
          if rotates cpu b s
          then (between ++ t ∷ blocked_before) ++ b ∷ []
          else between ++ t ∷ blocked_before)
blocked_stays fuel t cpu i b s between blocked_before free current lt none_above d enough q bs =
    let s1 = left_running t cpu s in
    let here = left_running-runqueue t cpu s in
    let (n, m) = Distinct-mid t (b ∷ between) blocked_before d in
    let nz : t ≢ 0 = Holds-mid s.next _ t (b ∷ between) [] q in
    let (before, apart, behind) = NotIn-mid b t between blocked_before d.0 in
    let other : b ≢ t = apart in
    let (s2, picked, p) =
      pick_next_thread_lem fuel cpu i b s1 (between ++ t ∷ blocked_before)
        (ap (λ (r : Runqueue). r.locked) here ∙ free) lt
        (λ j l l'. ap (λ (r : Runqueue). r.ready_queues j) here ∙ none_above j l l') d enough
        (left_running-Queued t cpu i s (b ∷ between) blocked_before n m q bs) in
    let same : rotates cpu b s1 ≡ rotates cpu b s =
      rw (here, update_ne s.state t b blocked (λ z. other (sym z))) refl in
    let rq' : Runqueue = record (runqueue cpu s2) { current_thread = b } in
    let here' = update_self s2.runqueues (cpu_index cpu) rq' in
    let stays : s1.state t ≡ blocked = update_self s.state t blocked in
    (
      set_runqueue cpu rq' (set_state b running s2),
      blocks fuel t cpu s free current
          ∙ (switched fuel cpu t b s1 s2 (ap (λ (r : Runqueue). r.current_thread) here ∙ current) nz
              other stays picked),
      update_ne s2.state b t running other ∙ (ap (λ (f : ℕ → ThreadState). f t) p.states ∙ stays),
      ap (λ (r : Runqueue). r.current_thread) here',
      rw (here', sym same) p.queue,
    )
