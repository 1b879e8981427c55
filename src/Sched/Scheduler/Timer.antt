-- ===== src/Sched/Scheduler/Timer.antt =====
-- `scheduler_tick` and `scheduler_check_reschedule` of kernel/sched/scheduler.c. The load balancer of
-- another file is an argument.
use scarlett_os.Base.{
  ℕ, zero, suc, ◌+◌, ◌%◌, ◌^◌, true, false, not, ◌&&◌, Option, none, some, leb, ◌==◌, if◌then◌else◌,
}
use scarlett_os.Base.Update.{update}
use scarlett_os.Sched.Scheduler.{
  Scheduler, ready, runqueue, set_next, set_state, add_to_ready_queue, schedule,
}

-- What the loop over the sleeping threads does before it wakes one.
abbrev pub take_sleeper : (prev current : ℕ) → Scheduler → Scheduler
take_sleeper prev current s = set_state current ready (
    if prev == 0
    then record s { sleeping_queue = s.next current }
    else set_next prev (s.next current) s)

-- The loop over the sleeping threads.
unfoldable pub wake : (fuel ticks prev current : ℕ) → Scheduler → Option Scheduler
unfolding add_to_ready_queue
wake zero ticks prev current s = none
wake (suc fuel) ticks prev current s =
    let kept = wake fuel ticks current (s.next current) s in
    if current == 0
    then some s
    else if leb (s.wakeup_time current) ticks
    then elim (add_to_ready_queue fuel current 0 (take_sleeper prev current s)) [
      | none ↦ none
      | some s' ↦ wake fuel ticks prev (s.next current) s'
    ]
    else kept

-- The last part of `scheduler_tick`.
abbrev pub count_tick : ℕ → Scheduler → Scheduler
count_tick cpu s =
    if leb 10 (s.tick_counter cpu + 1)
    then record s {
      tick_counter = update s.tick_counter cpu 0;
      need_reschedule = update s.need_reschedule cpu true;
    }
    else record s { tick_counter = update s.tick_counter cpu (s.tick_counter cpu + 1) }

-- The first part of `scheduler_tick`.
abbrev pub charge : ℕ → Scheduler → Scheduler
charge cpu s =
    let current = (runqueue cpu s).current_thread in
    if not (current == 0) && not (current == (runqueue cpu s).idle_thread)
    then record s { cpu_time = update s.cpu_time current ((s.cpu_time current + 1) % 2 ^ 64) }
    else s

-- `scheduler_tick`
unfoldable pub tick :
    (fuel cpu ticks : ℕ) → (balance : Scheduler → Scheduler) → Scheduler → Option Scheduler
unfolding wake
tick fuel cpu ticks balance s =
    let charged = charge cpu s in
    if cpu == 0
    then elim (wake fuel ticks 0 charged.sleeping_queue charged) [
      | none ↦ none
      | some s' ↦ some (count_tick cpu (balance s'))
    ]
    else some (count_tick cpu charged)

-- `scheduler_check_reschedule`
unfoldable pub check_reschedule : (fuel cpu : ℕ) → Scheduler → Option Scheduler
unfolding schedule
check_reschedule fuel cpu s =
    if s.need_reschedule cpu
    then schedule fuel cpu (record s { need_reschedule = update s.need_reschedule cpu false })
    else some s
