-- ===== src/Sync/Tests.antt =====
-- Two threads at each kind of lock.
use scarlett_os.Base.{◌≡◌, ◌&&◌, refl, true, false, [], ◌∷◌, arith, ◌==◌}
use scarlett_os.Sync.Mutex
use scarlett_os.Sync.Semaphore
use scarlett_os.Sync.Rwlock

-- Thread 4 takes the mutex and thread 5 waits.
abbrev one_inside : Mutex.Contention
one_inside = record {
  mutex = record { locked = true; owner_tid = 4; wait_count = 0 };
  inside = 4 ∷ [];
  waiting = [];
}

abbrev contended : Mutex.Contention
contended = record {
  mutex = record { locked = true; owner_tid = 4; wait_count = 1 };
  inside = 4 ∷ [];
  waiting = 5 ∷ [];
}

mutex_taken : Mutex.Step Mutex.start one_inside
unfolding Mutex.lock_round
mutex_taken = Mutex.Step.takes 4 one_inside.mutex (omega arith) refl

mutex_awaited : Mutex.Step one_inside contended
unfolding Mutex.lock_round
mutex_awaited = Mutex.Step.waits 5 contended.mutex (omega arith) refl

mutex_run : Mutex.Reach Mutex.start contended
mutex_run = Mutex.Reach.next (Mutex.Reach.next Mutex.Reach.here mutex_taken) mutex_awaited

mutual_exclusion_example : Mutex.Exclusive contended
mutual_exclusion_example = Mutex.mutual_exclusion mutex_run

-- One permit: thread 4 takes it and thread 5 waits.
abbrev one_holds : Semaphore.Usage
one_holds = record {
  semaphore = record { count = 0; max_count = 1; wait_count = 0 };
  holding = 1;
  extra = 0;
  lost = 0;
  waiting = [];
}

abbrev one_waits : Semaphore.Usage
one_waits = record {
  semaphore = record { count = 0; max_count = 1; wait_count = 1 };
  holding = 1;
  extra = 0;
  lost = 0;
  waiting = 5 ∷ [];
}

permit_taken : Semaphore.Step (Semaphore.start 1 1) one_holds
unfolding Semaphore.wait_round
permit_taken = Semaphore.Step.takes one_holds.semaphore refl

permit_awaited : Semaphore.Step one_holds one_waits
unfolding Semaphore.wait_round
permit_awaited = Semaphore.Step.waits 5 one_waits.semaphore refl

semaphore_run : Semaphore.Reach (Semaphore.start 1 1) one_waits
semaphore_run =
    Semaphore.Reach.next (Semaphore.Reach.next Semaphore.Reach.here permit_taken) permit_awaited

permits_conserved_example : Semaphore.Balanced 1 1 one_waits
permits_conserved_example = Semaphore.permits_conserved (omega arith) (omega arith) semaphore_run

-- A reader is inside and a writer waits.
abbrev one_reads : Rwlock.Usage
one_reads = record {
  lock = record { readers = 1; writer = false; waiting_writers = 0 };
  reading = 1;
  writing = 0;
  waiting = 0;
}

abbrev writer_waits : Rwlock.Usage
writer_waits = record {
  lock = record { readers = 1; writer = false; waiting_writers = 1 };
  reading = 1;
  writing = 0;
  waiting = 1;
}

reader_enters : Rwlock.Step Rwlock.start one_reads
unfolding Rwlock.read_round
reader_enters = Rwlock.Step.reads one_reads.lock (omega arith) refl

writer_stops : Rwlock.Step one_reads writer_waits
unfolding Rwlock.write_start Rwlock.write_round
writer_stops = Rwlock.Step.waits writer_waits.lock (omega arith) refl

rwlock_run : Rwlock.Reach Rwlock.start writer_waits
rwlock_run = Rwlock.Reach.next (Rwlock.Reach.next Rwlock.Reach.here reader_enters) writer_stops

writer_alone_example : Rwlock.Exclusive writer_waits
writer_alone_example = Rwlock.writer_alone rwlock_run

waiting_writer_first_example :
    ((Rwlock.read_round writer_waits.lock).0 ≡ false)
    × ((Rwlock.write_round writer_waits.lock).0
        ≡ ((writer_waits.reading == 0) && (writer_waits.writing == 0)))
waiting_writer_first_example = Rwlock.waiting_writer_first rwlock_run refl
