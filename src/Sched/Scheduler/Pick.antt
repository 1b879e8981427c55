-- ===== src/Sched/Scheduler/Pick.antt =====
-- `pick_next_thread` of kernel/sched/scheduler.c.
use mathlib.Core.Path.{subst}
use scarlett_os.Base.{
  ℕ, zero, suc, ◌<◌, ◌≡◌, ◌≢◌, refl, sym, ap, ◌∙◌, inl, inr, Bool, true, false, not, ◌&&◌, none,
  some, List, [], ◌∷◌, ◌++◌, length, length-append, ◌==◌, if◌then◌else◌, Bool-cases, arith,
}
use scarlett_os.Base.Update.{update, update_self, update_ne}
use scarlett_os.Sched.Scheduler.{
  Scheduler, is_ready, runqueue, set_head, set_next, take_first, highest, pick_next_thread,
}
use scarlett_os.Sched.Scheduler.Queue.{
  Holds, NotIn, Distinct, Holds-update, Holds-append, last_of_lem, last_cases, NotIn-append,
  Distinct-last, Holds-nonempty,
}
use scarlett_os.Sched.Scheduler.Append.{Queued, head_self}

-- The search over the priorities finds the highest with a thread.
pub highest_is :
    (n i : ℕ) (queues : ℕ → ℕ)
    → i < n
    → queues i ≢ 0
    → ((j : ℕ) → i < j → j < n → queues j ≡ 0)
    → highest n queues ≡ some i
unfolding highest
highest_is zero i queues h k none_above = absurd (omega arith)
highest_is (suc n) i queues h k none_above = elim (Bool-cases (n == i)) [
  | inl e ↦
      let same : n ≡ i = ground arith in
      let head : (queues n == 0) ≡ false = rw same (ground arith) in rw (highest, head, same) refl
  | inr e ↦
      let empty : queues n ≡ 0 = none_above n (ground arith) (omega arith) in
      rw (highest, empty)
        (highest_is n i queues (ground arith) k (λ j lt lt'. none_above j lt (omega arith)))
]

pub highest-none :
    (n : ℕ) (queues : ℕ → ℕ) → ((j : ℕ) → j < n → queues j ≡ 0) → highest n queues ≡ none
unfolding highest
highest-none zero queues h = refl
highest-none (suc n) queues h =
    rw (highest, h n (omega arith)) (highest-none n queues (λ j lt. h j (omega arith)))

-- Whether a thread that has been picked is put at the end of its queue again.
abbrev pub rotates : ℕ → ℕ → Scheduler → Bool
rotates cpu t s = not (t == (runqueue cpu s).idle_thread) && is_ready (s.state t)

-- The first thread is picked; it is put behind the others or leaves the queue.
pub record Picked (s : Scheduler) (cpu i t : ℕ) (rest : List ℕ) (s' : Scheduler) : Type 0 where
  pub queue : Queued s' cpu i (if rotates cpu t s then rest ++ t ∷ [] else rest)
  pub states : s'.state ≡ s.state

rotated :
    (fuel cpu i t : ℕ) (s : Scheduler) (rest : List ℕ)
    → rotates cpu t s ≡ true
    → Distinct (t ∷ rest)
    → length rest < fuel
    → Queued s cpu i (t ∷ rest)
    → (s' : Scheduler) × (take_first fuel cpu i s ≡ some (t, s'))
      × Queued s' cpu i (rest ++ t ∷ [])
      × (s'.state ≡ s.state)
unfolding take_first
rotated fuel cpu i t s rest r (n, d) enough (first, nz, q) = elim (last_cases rest) [
  | inl e ↦
      let end : s.next t ≡ 0 = subst (λ (l : List ℕ). Holds s.next (s.next t) l) e q in
      (
        set_next t 0 (set_head cpu i t s),
        rw (take_first, first, r, end) refl,
        subst (λ (l : List ℕ). Queued (set_next t 0 (set_head cpu i t s)) cpu i (l ++ t ∷ []))
            (sym e) (head_self cpu i t s, nz, update_self s.next t 0),
        refl,
      )
  | inr (us, last, e) ↦
      let next1 = update s.next t 0 in
      let q' : Holds next1 (s.next t) (us ++ last ∷ []) =
        subst (λ (l : List ℕ). Holds next1 (s.next t) l) e
          (Holds-update s.next t 0 (s.next t) rest n q) in
      let (before, other) = NotIn-append t last us (subst (NotIn t) e n) in
      let enough' : length us < fuel =
        omega (arith, ap (λ (l : List ℕ). length l) e, length-append us (last ∷ [])) in
      let more : (s.next t == 0) ≡ false =
        ground (arith, Holds-nonempty next1 (s.next t) last us q') in
      let walk = last_of_lem fuel next1 (s.next t) last us q' enough' in
      let s' = set_next last t (set_next t 0 (set_head cpu i (s.next t) s)) in
      let queue : Holds (update next1 last t) (s.next t) ((us ++ last ∷ []) ++ t ∷ []) =
        Holds-append next1 (update next1 last t) (s.next t) last t us (update_self next1 last t)
          (update_ne next1 last t t (λ h. other (sym h)) ∙ update_self s.next t 0)
          (λ u h k. update_ne next1 last u t (λ z. h (sym z)))
          (Distinct-last last us (subst Distinct e d)) before nz q' in
      (
        s',
        rw (take_first, first, r, more, walk) refl,
        subst (λ (l : List ℕ). Queued s' cpu i (l ++ t ∷ [])) (sym e)
            (rw (head_self cpu i (s.next t) s) queue),
        refl,
      )
]

left :
    (fuel cpu i t : ℕ) (s : Scheduler) (rest : List ℕ)
    → rotates cpu t s ≡ false
    → Queued s cpu i (t ∷ rest)
    → (s' : Scheduler) × (take_first fuel cpu i s ≡ some (t, s'))
      × Queued s' cpu i rest
      × (s'.state ≡ s.state)
unfolding take_first
left fuel cpu i t s rest r (first, nz, q) = (
  set_head cpu i (s.next t) s,
  rw (take_first, first, r) refl,
  rw (head_self cpu i (s.next t) s) q,
  refl,
)

-- With a free lock and fuel for the queue's length, `pick_next_thread` picks the first thread of the
-- highest priority that has one, and puts it behind the others if it is ready and not the idle thread.
pub pick_next_thread_lem :
    (fuel cpu i t : ℕ) (s : Scheduler) (rest : List ℕ)
    → (runqueue cpu s).locked ≡ false
    → i < 128
    → ((j : ℕ) → i < j → j < 128 → (runqueue cpu s).ready_queues j ≡ 0)
    → Distinct (t ∷ rest)
    → length rest < fuel
    → Queued s cpu i (t ∷ rest)
    → (s' : Scheduler) × (pick_next_thread fuel cpu s ≡ some (t, s')) × Picked s cpu i t rest s'
unfolding pick_next_thread
pick_next_thread_lem fuel cpu i t s rest free lt none_above d enough q =
    let (first, nz, q') = q in
    let found = highest_is 128 i (runqueue cpu s).ready_queues lt (rw first nz) none_above in
    elim (Bool-cases (rotates cpu t s)) [
      | inl r ↦
          let (s', done, queue, states) = rotated fuel cpu i t s rest r d enough q in
          (
            s',
            rw (pick_next_thread, free, found) done,
            record { queue = rw r queue; states = states },
          )
      | inr r ↦
          let (s', done, queue, states) = left fuel cpu i t s rest r q in
          (
            s',
            rw (pick_next_thread, free, found) done,
            record { queue = rw r queue; states = states },
          )
    ]
