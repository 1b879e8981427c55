-- ===== src/Sync/Mutex.antt =====
-- kernel/sync/mutex.c. A call on a null mutex does nothing and is left out.
use scarlett_os.Base.{
  ℕ, suc, ◌+◌, ◌-◌, ◌%◌, ◌^◌, ◌<◌, ◌≡◌, ◌≢◌, ◌↔◌, inl, inr, refl, ap, ◌∙◌, Bool, true, false, not,
  Option, none, some, List, [], ◌∷◌, ◌++◌, arith, length, length-append, ◌==◌, if◌then◌else◌,
  Bool-cases,
}

-- `mutex_t` without its spinlock
pub record Mutex : Type 0 where
  pub locked : Bool
  pub owner_tid : ℕ
  pub wait_count : ℕ

-- `mutex_init`
abbrev pub init : Mutex
init = record { locked = false; owner_tid = 0; wait_count = 0 }

-- The 32 bits of the current thread's id; `none` is that there is no current thread.
abbrev pub current_tid : Option ℕ → ℕ
current_tid none = 0
current_tid (some tid) = tid % 2 ^ 32

-- The first critical section of a round of `mutex_lock`: whether the lock is taken.
unfoldable pub lock_round : Option ℕ → Mutex → Bool × Mutex
lock_round current m =
    if not m.locked
    then (true, record m { locked = true; owner_tid = current_tid current })
    else (false, record m { wait_count = (m.wait_count + 1) % 2 ^ 32 })

-- The second critical section of a round, after the thread has yielded.
unfoldable pub end_wait : Mutex → Mutex
end_wait m = record m { wait_count = (m.wait_count + 2 ^ 32 - 1) % 2 ^ 32 }

-- `mutex_unlock`
unfoldable pub unlock : Option ℕ → Mutex → Mutex
unlock current m =
    if not m.locked
    then m
    else if not (m.owner_tid == current_tid current)
    then m
    else record m { locked = false; owner_tid = 0 }

-- `mutex_trylock`
unfoldable pub trylock : Option ℕ → Mutex → Bool × Mutex
trylock current m =
    if not m.locked
    then (true, record m { locked = true; owner_tid = current_tid current })
    else (false, m)

-- `mutex_is_locked`
abbrev pub is_locked : Mutex → Bool
is_locked m = m.locked

-- A mutex, the threads that have taken it and not given it back, and those that have counted
-- themselves as waiting.
pub record Contention : Type 0 where
  pub mutex : Mutex
  pub inside : List ℕ
  pub waiting : List ℕ

abbrev pub start : Contention
start = record { mutex = init; inside = []; waiting = [] }

-- What an unlock by `tid` does to the threads inside: `tid` leaves if it is there.
abbrev pub leave : ℕ → List ℕ → List ℕ
leave tid [] = []
leave tid (t ∷ ts) = if t == tid then ts else t ∷ leave tid ts

-- A critical section of a thread, whose id fits 32 bits. Any thread may call `mutex_unlock`.
pub data Step (s : Contention) : Contention → Type 0 where
  takes :
      (tid : ℕ) (m : Mutex)
      → tid < 2 ^ 32
      → lock_round (some tid) s.mutex ≡ (true, m)
      → Step s (record s { mutex = m; inside = tid ∷ s.inside })
  waits :
      (tid : ℕ) (m : Mutex)
      → tid < 2 ^ 32
      → lock_round (some tid) s.mutex ≡ (false, m)
      → Step s (record s { mutex = m; waiting = tid ∷ s.waiting })
  wakes :
      (tid : ℕ) (before after : List ℕ)
      → s.waiting ≡ before ++ (tid ∷ after)
      → Step s (record s { mutex = end_wait s.mutex; waiting = before ++ after })
  unlocks :
      (tid : ℕ)
      → tid < 2 ^ 32
      → Step s (record s { mutex = unlock (some tid) s.mutex; inside = leave tid s.inside })
  tries :
      (tid : ℕ) (m : Mutex)
      → tid < 2 ^ 32
      → trylock (some tid) s.mutex ≡ (true, m)
      → Step s (record s { mutex = m; inside = tid ∷ s.inside })

pub data Reach (s : Contention) : Contention → Type 0 where
  here : Reach s s
  next : {t u : Contention} → Reach s t → Step t u → Reach s u

-- At most one thread is inside, and it is the owner that the mutex names; the waiting threads are
-- counted modulo 2^32.
pub record Exclusive (s : Contention) : Type 0 where
  pub holder : s.inside ≡ (if s.mutex.locked then s.mutex.owner_tid ∷ [] else [])
  pub fits : s.mutex.owner_tid < 2 ^ 32
  pub counted : s.mutex.wait_count ≡ length s.waiting % 2 ^ 32

-- What `mutex_unlock` does in each case.
module _ (tid : ℕ) (m : Mutex) (h : tid < 2 ^ 32) where
  unlock_free : m.locked ≡ false → unlock (some tid) m ≡ m
  unfolding unlock
  unlock_free e = rw e refl

  unlock_owned :
      m.locked ≡ true
      → m.owner_tid ≡ tid
      → unlock (some tid) m ≡ record m { locked = false; owner_tid = 0 }
  unfolding unlock
  unlock_owned e own =
      let same : (m.owner_tid == tid % 2 ^ 32) ≡ true = ground arith in rw (e, same) refl

  unlock_other : m.owner_tid ≢ tid → unlock (some tid) m ≡ m
  unfolding unlock
  unlock_other ne =
      let other : (m.owner_tid == tid % 2 ^ 32) ≡ false = ground arith in
      elim (Bool-cases m.locked) [ inl e ↦ rw (e, other) refl | inr e ↦ rw e refl ]

module _ {s : Contention} (v : Exclusive s) (tid : ℕ) (h : tid < 2 ^ 32) where
  taken-Exclusive :
      (m : Mutex)
      → s.mutex.locked ≡ false
      → m ≡ record s.mutex { locked = true; owner_tid = current_tid (some tid) }
      → Exclusive (record s { mutex = m; inside = tid ∷ s.inside })
  taken-Exclusive m unlocked e =
      rw (v.holder, unlocked, e)
        (record {
          holder = let fit : tid ≡ tid % 2 ^ 32 = omega arith in ap (λ (t : ℕ). t ∷ []) fit;
          fits = omega arith;
          counted = v.counted;
        })

  -- Nothing changes when the thread is not inside.
  kept-Exclusive :
      unlock (some tid) s.mutex ≡ s.mutex
      → leave tid s.inside ≡ s.inside
      → Exclusive (record s { mutex = unlock (some tid) s.mutex; inside = leave tid s.inside })
  kept-Exclusive same stays = rw (same, stays) v

  unlocked-Exclusive :
      Exclusive (record s { mutex = unlock (some tid) s.mutex; inside = leave tid s.inside })
  unlocked-Exclusive = elim (Bool-cases s.mutex.locked) [
    | inr e ↦
        let nobody : s.inside ≡ [] = ground (arith, v.holder) in
        kept-Exclusive (unlock_free tid s.mutex h e) (rw nobody refl)
    | inl e ↦
        let owner : s.inside ≡ s.mutex.owner_tid ∷ [] = ground (arith, v.holder) in
        elim (Bool-cases (s.mutex.owner_tid == tid)) [
          | inl same ↦
              let own : s.mutex.owner_tid ≡ tid = ground arith in
              let left : leave tid s.inside ≡ [] = rw (owner, same) refl in
              rw (unlock_owned tid s.mutex h e own, left)
                (record { holder = refl; fits = omega arith; counted = v.counted })
          | inr other ↦
              kept-Exclusive (unlock_other tid s.mutex h (ground arith)) (rw (owner, other) refl)
        ]
  ]

lock_round-taken :
    (current : Option ℕ) (m : Mutex) {m' : Mutex}
    → lock_round current m ≡ (true, m')
    → (m.locked ≡ false) × (m' ≡ record m { locked = true; owner_tid = current_tid current })
unfolding lock_round
lock_round-taken current m e = ground arith

trylock-taken :
    (current : Option ℕ) (m : Mutex) {m' : Mutex}
    → trylock current m ≡ (true, m')
    → (m.locked ≡ false) × (m' ≡ record m { locked = true; owner_tid = current_tid current })
unfolding trylock
trylock-taken current m e = ground arith

lock_round-waits :
    (current : Option ℕ) (m : Mutex) {m' : Mutex}
    → lock_round current m ≡ (false, m')
    → m' ≡ record m { wait_count = (m.wait_count + 1) % 2 ^ 32 }
unfolding lock_round
lock_round-waits current m e = ground arith

Step-Exclusive : {s t : Contention} → Step s t → Exclusive s → Exclusive t
unfolding end_wait
Step-Exclusive {s} (takes tid m h e) v =
    let (free, now) = lock_round-taken (some tid) s.mutex e in taken-Exclusive v tid h m free now
Step-Exclusive {s} (tries tid m h e) v =
    let (free, now) = trylock-taken (some tid) s.mutex e in taken-Exclusive v tid h m free now
Step-Exclusive {s} (unlocks tid h) v = unlocked-Exclusive v tid h
Step-Exclusive {s} (waits tid m h e) v =
    rw (lock_round-waits (some tid) s.mutex e)
      (record { holder = v.holder; fits = v.fits; counted = omega (arith, v.counted) })
Step-Exclusive {s} (wakes tid before after e) v = record {
  holder = v.holder;
  fits = v.fits;
  counted =
      let total : length s.waiting ≡ length before + suc (length after) =
        ap length e ∙ length-append before (tid ∷ after) in
      let fewer : length (before ++ after) ≡ length before + length after =
        length-append before after in
      omega (arith, v.counted);
}

-- Whatever threads with 32-bit ids lock, try and unlock a new mutex, in any interleaving of their
-- critical sections and also when some unlock it without holding it: at most one thread is inside,
-- it is the owner, the mutex is locked exactly then, and the waiting threads are counted modulo 2^32.
pub mutual_exclusion : {s : Contention} → Reach start s → Exclusive s
mutual_exclusion here = record { holder = refl; fits = omega arith; counted = omega arith }
mutual_exclusion (next r st) = Step-Exclusive st (mutual_exclusion r)

-- In every such state, `mutex_trylock` and a round of `mutex_lock` take the mutex when and only when
-- no thread is inside.
pub taken_iff_empty :
    {s : Contention} (current : Option ℕ)
    → Reach start s
    → (((trylock current s.mutex).0 ≡ true) ↔ (s.inside ≡ []))
      × (((lock_round current s.mutex).0 ≡ true) ↔ (s.inside ≡ []))
unfolding trylock lock_round
taken_iff_empty {s} current r =
    let holder = (mutual_exclusion r).holder in
    ((λ h. ground arith, λ h. ground arith), (λ h. ground arith, λ h. ground arith))
