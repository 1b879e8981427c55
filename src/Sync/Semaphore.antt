-- ===== src/Sync/Semaphore.antt =====
-- kernel/sync/semaphore.c. A call on a null semaphore does nothing and is left out.
use scarlett_os.Base.{
  ℕ, suc, ◌+◌, ◌-◌, ◌%◌, ◌^◌, ◌≤◌, ◌<◌, ◌≡◌, refl, ap, ◌∙◌, ◌⊎◌, inl, inr, Bool, true, false, List,
  [], ◌∷◌, ◌++◌, arith, length, length-append, ltb, if◌then◌else◌,
}

-- `semaphore_t` without its spinlock
pub record Semaphore : Type 0 where
  pub count : ℕ
  pub max_count : ℕ
  pub wait_count : ℕ

-- `semaphore_init`
abbrev pub init : ℕ → ℕ → Semaphore
init initial_count max_count = record {
  count = initial_count;
  max_count = max_count;
  wait_count = 0;
}

-- The first critical section of a round of `semaphore_wait`: whether the semaphore is taken.
unfoldable pub wait_round : Semaphore → Bool × Semaphore
wait_round m =
    if ltb 0 m.count
    then (true, record m { count = m.count - 1 })
    else (false, record m { wait_count = (m.wait_count + 1) % 2 ^ 32 })

-- The second critical section of a round, after the thread has yielded.
unfoldable pub end_wait : Semaphore → Semaphore
end_wait m = record m { wait_count = (m.wait_count + 2 ^ 32 - 1) % 2 ^ 32 }

-- `semaphore_signal`
unfoldable pub signal : Semaphore → Semaphore
signal m = if ltb m.count m.max_count then record m { count = (m.count + 1) % 2 ^ 32 } else m

-- `semaphore_trywait`
unfoldable pub trywait : Semaphore → Bool × Semaphore
trywait m = if ltb 0 m.count then (true, record m { count = m.count - 1 }) else (false, m)

-- `semaphore_get_count`
abbrev pub get_count : Semaphore → ℕ
get_count m = m.count

-- A semaphore, how many threads hold it, how often it was signalled by a thread that did not hold
-- it, how many signals were lost at the maximum, and the threads that have counted themselves as
-- waiting.
pub record Usage : Type 0 where
  pub semaphore : Semaphore
  pub holding : ℕ
  pub extra : ℕ
  pub lost : ℕ
  pub waiting : List ℕ

abbrev pub start : ℕ → ℕ → Usage
start initial_count max_count = record {
  semaphore = init initial_count max_count;
  holding = 0;
  extra = 0;
  lost = 0;
  waiting = [];
}

-- How many signals are lost by one in this state.
abbrev pub loses : Semaphore → ℕ
loses m = if ltb m.count m.max_count then 0 else 1

pub data Step (s : Usage) : Usage → Type 0 where
  takes :
      (m : Semaphore)
      → wait_round s.semaphore ≡ (true, m)
      → Step s (record s { semaphore = m; holding = s.holding + 1 })
  waits :
      (tid : ℕ) (m : Semaphore)
      → wait_round s.semaphore ≡ (false, m)
      → Step s (record s { semaphore = m; waiting = tid ∷ s.waiting })
  wakes :
      (tid : ℕ) (before after : List ℕ)
      → s.waiting ≡ before ++ (tid ∷ after)
      → Step s (record s { semaphore = end_wait s.semaphore; waiting = before ++ after })
  tries :
      (m : Semaphore)
      → trywait s.semaphore ≡ (true, m)
      → Step s (record s { semaphore = m; holding = s.holding + 1 })
  gives_back :
      (n : ℕ)
      → s.holding ≡ suc n
      → Step s (record s {
        semaphore = signal s.semaphore;
        holding = n;
        lost = s.lost + loses s.semaphore;
      })
  signals : Step s (record s {
    semaphore = signal s.semaphore;
    extra = s.extra + 1;
    lost = s.lost + loses s.semaphore;
  })

pub data Reach (s : Usage) : Usage → Type 0 where
  here : Reach s s
  next : {t u : Usage} → Reach s t → Step t u → Reach s u

-- Every permit is in the count, with a thread, or lost to a surplus signal; the count keeps to its
-- maximum.
pub record Balanced (initial_count max_count : ℕ) (s : Usage) : Type 0 where
  pub conserved : s.semaphore.count + s.holding + s.lost ≡ initial_count + s.extra
  pub bounded : s.semaphore.count ≤ max_count
  pub limit : s.semaphore.max_count ≡ max_count
  pub surplus : s.lost ≤ s.extra
  pub counted : s.semaphore.wait_count ≡ length s.waiting % 2 ^ 32

module _ (m : Semaphore) {m' : Semaphore} where
  wait_round-taken :
      wait_round m ≡ (true, m') → (1 ≤ m.count) × (m' ≡ record m { count = m.count - 1 })
  unfolding wait_round
  wait_round-taken e = ground arith

  wait_round-waits :
      wait_round m ≡ (false, m') → m' ≡ record m { wait_count = (m.wait_count + 1) % 2 ^ 32 }
  unfolding wait_round
  wait_round-waits e = ground arith

  trywait-taken : trywait m ≡ (true, m') → (1 ≤ m.count) × (m' ≡ record m { count = m.count - 1 })
  unfolding trywait
  trywait-taken e = ground arith

-- A signal adds a permit or is lost.
module _ (m : Semaphore) (fits : m.max_count < 2 ^ 32) where
  signal-count : (signal m).count + loses m ≡ m.count + 1
  unfolding signal
  signal-count = ground arith

  signal-bounded : m.count ≤ m.max_count → (signal m).count ≤ m.max_count
  unfolding signal
  signal-bounded h = ground arith

  signal-rest : ((signal m).max_count ≡ m.max_count) × ((signal m).wait_count ≡ m.wait_count)
  unfolding signal
  signal-rest = ground arith

  loses-full : m.count ≤ m.max_count → (loses m ≡ 0) ⊎ ((loses m ≡ 1) × (m.count ≡ m.max_count))
  loses-full h = ground arith

module _ {i n : ℕ} (le : i ≤ n) (fits : n < 2 ^ 32) where
  taken-Balanced :
      {s : Usage} (m : Semaphore)
      → Balanced i n s
      → (1 ≤ s.semaphore.count) × (m ≡ record s.semaphore { count = s.semaphore.count - 1 })
      → Balanced i n (record s { semaphore = m; holding = s.holding + 1 })
  taken-Balanced {s} m v (some_left, e) = rw e (record {
    conserved = omega (arith, v.conserved);
    bounded = omega (arith, v.bounded);
    limit = v.limit;
    surplus = v.surplus;
    counted = v.counted;
  })

  Step-Balanced : {s t : Usage} → Step s t → Balanced i n s → Balanced i n t
  unfolding end_wait
  Step-Balanced {s} (takes m e) v = taken-Balanced m v (wait_round-taken s.semaphore e)
  Step-Balanced {s} (tries m e) v = taken-Balanced m v (trywait-taken s.semaphore e)
  Step-Balanced {s} (waits tid m e) v = rw (wait_round-waits s.semaphore e) (record {
    conserved = v.conserved;
    bounded = v.bounded;
    limit = v.limit;
    surplus = v.surplus;
    counted = omega (arith, v.counted);
  })
  Step-Balanced {s} (wakes tid before after e) v = record {
    conserved = v.conserved;
    bounded = v.bounded;
    limit = v.limit;
    surplus = v.surplus;
    counted =
        let total : length s.waiting ≡ length before + suc (length after) =
          ap length e ∙ length-append before (tid ∷ after) in
        let fewer : length (before ++ after) ≡ length before + length after =
          length-append before after in
        omega (arith, v.counted);
  }
  Step-Balanced {s} (gives_back k e) v =
      let small : s.semaphore.max_count < 2 ^ 32 = omega (arith, v.limit) in
      let low : s.semaphore.count ≤ s.semaphore.max_count = omega (arith, v.bounded, v.limit) in
      let change = signal-count s.semaphore small in
      let (same, waiters) = signal-rest s.semaphore small in
      record {
        conserved = omega (arith, v.conserved);
        bounded = omega (arith, signal-bounded s.semaphore small low, v.limit);
        limit = same ∙ v.limit;
        surplus = elim (loses-full s.semaphore small low) [
          | inl zero_lost ↦ omega (arith, v.surplus)
          | inr (one, full) ↦ omega (arith, v.conserved, v.limit)
        ];
        counted = waiters ∙ v.counted;
      }
  Step-Balanced {s} signals v =
      let small : s.semaphore.max_count < 2 ^ 32 = omega (arith, v.limit) in
      let low : s.semaphore.count ≤ s.semaphore.max_count = omega (arith, v.bounded, v.limit) in
      let change = signal-count s.semaphore small in
      let (same, waiters) = signal-rest s.semaphore small in
      record {
        conserved = omega (arith, v.conserved);
        bounded = omega (arith, signal-bounded s.semaphore small low, v.limit);
        limit = same ∙ v.limit;
        surplus = elim (loses-full s.semaphore small low) [
          | inl zero_lost ↦ omega (arith, v.surplus)
          | inr (one, full) ↦ omega (arith, v.surplus)
        ];
        counted = waiters ∙ v.counted;
      }

  -- Whatever threads wait for, try and signal a new semaphore, in any interleaving: the permits in
  -- the count, with threads and lost at the maximum are the initial ones and those of signals by
  -- threads that held none; the count keeps to its 32-bit maximum, the initial count being at most
  -- that; no more signals are lost than threads without a permit gave.
  pub permits_conserved : {s : Usage} → Reach (start i n) s → Balanced i n s
  permits_conserved here = record {
    conserved = omega arith;
    bounded = le;
    limit = refl;
    surplus = omega arith;
    counted = omega arith;
  }
  permits_conserved (next r st) = Step-Balanced st (permits_conserved r)

  -- When only threads that hold the semaphore signal it, at most as many threads hold it at once as
  -- the initial count says, and `semaphore_get_count` says how many more may take it.
  pub holders_bounded :
      {s : Usage}
      → Reach (start i n) s
      → s.extra ≡ 0
      → (s.holding ≤ i) × (get_count s.semaphore + s.holding ≡ i)
  holders_bounded {s} r disciplined =
      let v = permits_conserved r in
      let total = v.conserved in let surplus = v.surplus in (omega arith, omega arith)
