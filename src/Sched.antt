-- ===== src/Sched.antt =====
-- kernel/sched: the scheduler of kernel/sched/scheduler.c.
pub mod Scheduler
