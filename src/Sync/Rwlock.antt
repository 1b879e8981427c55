-- ===== src/Sync/Rwlock.antt =====
-- kernel/sync/rwlock.c. A call on a null lock does nothing and is left out.
use scarlett_os.Base.{
  ℕ, suc, ◌+◌, ◌-◌, ◌%◌, ◌^◌, ◌<◌, ◌≡◌, refl, Bool, true, false, ◌||◌, ◌&&◌, ◌⊎◌, inl, inr, arith,
  ltb, ◌==◌, if◌then◌else◌,
}

-- `rwlock_t` without its spinlock. The counters are `int32_t`, here as two's complement words.
pub record Rwlock : Type 0 where
  pub readers : ℕ
  pub writer : Bool
  pub waiting_writers : ℕ

-- `x > 0` for an `int32_t`
abbrev pub positive : ℕ → Bool
positive x = ltb 0 x && ltb x (2 ^ 31)

-- `rwlock_init`
abbrev pub init : Rwlock
init = record { readers = 0; writer = false; waiting_writers = 0 }

-- A critical section of `rwlock_read_lock`: the test of its loop and what follows the loop; `false`
-- is another round.
unfoldable pub read_round : Rwlock → Bool × Rwlock
read_round l =
    if l.writer || positive l.waiting_writers
    then (false, l)
    else (true, record l { readers = (l.readers + 1) % 2 ^ 32 })

-- `rwlock_read_unlock`
unfoldable pub read_unlock : Rwlock → Rwlock
read_unlock l = record l { readers = (l.readers + 2 ^ 32 - 1) % 2 ^ 32 }

-- A critical section of `rwlock_write_lock` from the test of its loop on.
unfoldable pub write_round : Rwlock → Bool × Rwlock
write_round l = if positive l.readers || l.writer then (false, l) else (
  true,
  record l { waiting_writers = (l.waiting_writers + 2 ^ 32 - 1) % 2 ^ 32; writer = true },
)

-- The first critical section of `rwlock_write_lock`.
unfoldable pub write_start : Rwlock → Bool × Rwlock
unfolding write_round
write_start l = write_round (record l { waiting_writers = (l.waiting_writers + 1) % 2 ^ 32 })

-- `rwlock_write_unlock`
unfoldable pub write_unlock : Rwlock → Rwlock
write_unlock l = record l { writer = false }

-- A lock, how many threads read and write under it, and how many writers wait in the loop.
pub record Usage : Type 0 where
  pub lock : Rwlock
  pub reading : ℕ
  pub writing : ℕ
  pub waiting : ℕ

abbrev pub start : Usage
start = record { lock = init; reading = 0; writing = 0; waiting = 0 }

-- A critical section of a thread. The threads are fewer than 2^31, and one unlocks what it holds.
pub data Step (s : Usage) : Usage → Type 0 where
  reads :
      (l : Rwlock)
      → s.reading + 1 < 2 ^ 31
      → read_round s.lock ≡ (true, l)
      → Step s (record s { lock = l; reading = s.reading + 1 })
  stops_reading :
      (n : ℕ) → s.reading ≡ suc n → Step s (record s { lock = read_unlock s.lock; reading = n })
  waits :
      (l : Rwlock)
      → s.waiting + 1 < 2 ^ 31
      → write_start s.lock ≡ (false, l)
      → Step s (record s { lock = l; waiting = s.waiting + 1 })
  writes_at_once :
      (l : Rwlock)
      → s.waiting + 1 < 2 ^ 31
      → write_start s.lock ≡ (true, l)
      → Step s (record s { lock = l; writing = s.writing + 1 })
  writes :
      (n : ℕ) (l : Rwlock)
      → s.waiting ≡ suc n
      → write_round s.lock ≡ (true, l)
      → Step s (record s { lock = l; writing = s.writing + 1; waiting = n })
  stops_writing :
      (n : ℕ) → s.writing ≡ suc n → Step s (record s { lock = write_unlock s.lock; writing = n })

pub data Reach (s : Usage) : Usage → Type 0 where
  here : Reach s s
  next : {t u : Usage} → Reach s t → Step t u → Reach s u

-- The lock's fields say who is inside, and a writer is inside alone.
pub record Exclusive (s : Usage) : Type 0 where
  pub readers : s.lock.readers ≡ s.reading
  pub waiters : s.lock.waiting_writers ≡ s.waiting
  pub writer : s.writing ≡ (if s.lock.writer then 1 else 0)
  pub alone : (s.writing ≡ 0) ⊎ (s.reading ≡ 0)
  pub fits : (s.reading < 2 ^ 31) × (s.waiting < 2 ^ 31)

module _ (l : Rwlock) {l' : Rwlock} where
  read_round-enters :
      read_round l ≡ (true, l')
      → (l.writer ≡ false)
        × (positive l.waiting_writers ≡ false)
        × (l' ≡ record l { readers = (l.readers + 1) % 2 ^ 32 })
  unfolding read_round
  read_round-enters e = ground arith

  write_round-enters :
      write_round l ≡ (true, l')
      → (l.writer ≡ false)
        × (positive l.readers ≡ false)
        × (l' ≡ record l {
          waiting_writers = (l.waiting_writers + 2 ^ 32 - 1) % 2 ^ 32;
          writer = true;
        })
  unfolding write_round
  write_round-enters e = ground arith

  write_start-waits :
      write_start l ≡ (false, l')
      → l' ≡ record l { waiting_writers = (l.waiting_writers + 1) % 2 ^ 32 }
  unfolding write_start write_round
  write_start-waits e = ground arith

  write_start-enters :
      write_start l ≡ (true, l')
      → (l.writer ≡ false)
        × (positive l.readers ≡ false)
        × (l' ≡ record l {
          waiting_writers = ((l.waiting_writers + 1) % 2 ^ 32 + 2 ^ 32 - 1) % 2 ^ 32;
          writer = true;
        })
  unfolding write_start write_round
  write_start-enters e = ground arith

Step-Exclusive : {s t : Usage} → Step s t → Exclusive s → Exclusive t
Step-Exclusive {s} (reads l h e) v =
    let (nobody, none_wait, now) = read_round-enters s.lock e in
    let idle : s.writing ≡ 0 = ground (arith, v.writer) in
    rw now (record {
      readers = omega (arith, v.readers);
      waiters = v.waiters;
      writer = v.writer;
      alone = inl idle;
      fits = (h, v.fits.1);
    })
Step-Exclusive {s} (stops_reading n e) v =
    unfold read_unlock in
    record {
      readers = omega (arith, v.readers, v.fits.0);
      waiters = v.waiters;
      writer = v.writer;
      alone = elim v.alone [ inl idle ↦ inl idle | inr empty ↦ inr (omega arith) ];
      fits = (omega (arith, v.fits.0), v.fits.1);
    }
Step-Exclusive {s} (waits l h e) v = rw (write_start-waits s.lock e) (record {
  readers = v.readers;
  waiters = omega (arith, v.waiters);
  writer = v.writer;
  alone = v.alone;
  fits = (v.fits.0, h);
})
Step-Exclusive {s} (writes_at_once l h e) v =
    let (nobody, unread, now) = write_start-enters s.lock e in
    let idle : s.writing ≡ 0 = ground (arith, v.writer) in
    rw now (record {
      readers = v.readers;
      waiters = omega (arith, v.waiters);
      writer = omega arith;
      alone = inr (ground (arith, v.readers, v.fits.0));
      fits = v.fits;
    })
Step-Exclusive {s} (writes n l w e) v =
    let (nobody, unread, now) = write_round-enters s.lock e in
    let idle : s.writing ≡ 0 = ground (arith, v.writer) in
    rw now (record {
      readers = v.readers;
      waiters = omega (arith, v.waiters, v.fits.1);
      writer = omega arith;
      alone = inr (ground (arith, v.readers, v.fits.0));
      fits = (v.fits.0, omega (arith, v.fits.1));
    })
Step-Exclusive {s} (stops_writing n e) v =
    let one : n ≡ 0 = ground (arith, v.writer) in
    unfold write_unlock in
    record {
      readers = v.readers;
      waiters = v.waiters;
      writer = one;
      alone = inl one;
      fits = v.fits;
    }

-- Whatever fewer than 2^31 threads lock and unlock under a new lock, in any interleaving: at most one
-- writes, none reads while one writes, and the fields count the readers and the waiting writers.
pub writer_alone : {s : Usage} → Reach start s → Exclusive s
writer_alone here = record {
  readers = refl;
  waiters = refl;
  writer = refl;
  alone = inl refl;
  fits = (omega arith, omega arith);
}
writer_alone (next r st) = Step-Exclusive st (writer_alone r)

-- While a writer waits, `rwlock_read_lock` lets no reader in; the writer is let in as soon as no
-- thread reads or writes.
pub waiting_writer_first :
    {s : Usage} {n : ℕ}
    → Reach start s
    → s.waiting ≡ suc n
    → ((read_round s.lock).0 ≡ false)
      × ((write_round s.lock).0 ≡ ((s.reading == 0) && (s.writing == 0)))
unfolding read_round write_round
waiting_writer_first r e =
    let v = writer_alone r in
    (ground (arith, v.waiters, v.fits.1), ground (arith, v.readers, v.writer, v.fits.0))
