-- ===== src/Sched/Queue/Calls/Locks.antt =====
-- The lock of the run queue in `sched_yield` and `sched_tick` of kernel/sched/sched.c: both take it
-- and call `sched_enqueue`, which takes it again.
use open_asd.Prelude.{
  ℕ, ◌≤◌, ◌≡◌, refl, ap, ◌∙◌, ◌≢◌, ◌⊎◌, inl, inr, true, false, Option, none, some, arith, ltb, leb,
  ◌==◌, ltb→lt, Bool-cases, le→leb, if◌then◌else◌,
}
use open_asd.Prelude.Find.{on_some}
use open_asd.Sched.Queue.{
  Sched, Runq, sched_intr, proc_run, bootstrap, lock_queue, least_loaded, pick_cpu, spin_lock,
  sched_enqueue,
}
use open_asd.Sched.Queue.Ready.{equal_self, unequal, sched_enqueue_held}
use open_asd.Sched.Queue.Calls.{
  this_cpu, is_waiter, run_next, decay, preempt, sched_yield, sched_tick,
}

none_or_one : (runqs : ℕ → Runq) (m : ℕ) → least_loaded 1 0 runqs m 0 ≡ 0
unfolding least_loaded
none_or_one runqs m = ground arith

pick_of_one :
    (c n : ℕ) (runqs : ℕ → Runq)
    → n ≡ 1
    → (if ltb c n then c else least_loaded n 0 runqs 0xFFFFFFFF 0) ≡ 0
pick_of_one c n runqs one = rw one (at_one (Bool-cases (ltb c 1)))
  where
    at_one :
        ((ltb c 1 ≡ true) ⊎ (ltb c 1 ≡ false))
        → (if ltb c 1 then c else least_loaded 1 0 runqs 0xFFFFFFFF 0) ≡ 0
    at_one (inl low) = rw low (omega (arith, ltb→lt c 1 low))
    at_one (inr high) = rw high (none_or_one runqs 0xFFFFFFFF)

-- With one processor every process goes to its queue.
pick_one : (p : ℕ) (s : Sched) → s.cpu_count ≡ 1 → pick_cpu p s ≡ 0
unfolding pick_cpu
pick_one p s one = pick_of_one (s.pcbs p).cpu s.cpu_count s.runqs one

lock_queue-locked : (cpu : ℕ) (s : Sched) → ((lock_queue cpu s).runqs cpu).locked ≡ true
unfolding lock_queue
lock_queue-locked cpu s = ground arith

lock_queue-cpu_count : (cpu : ℕ) (s : Sched) → (lock_queue cpu s).cpu_count ≡ s.cpu_count
unfolding lock_queue
lock_queue-cpu_count cpu s = refl

-- The second `spin_lock`.
enqueue_blocks :
    (p : ℕ) (s : Sched) → s.cpu_count ≡ 1 → sched_enqueue p (lock_queue this_cpu s) ≡ none
enqueue_blocks p s one = sched_enqueue_held p (lock_queue this_cpu s) (
    ap (λ cpu. ((lock_queue this_cpu s).runqs cpu).locked)
      (pick_one p (lock_queue this_cpu s) (lock_queue-cpu_count this_cpu s ∙ one))
    ∙ lock_queue-locked this_cpu s)

-- A lock, an enqueue and more, on one processor.
locked_enqueue :
    (p : ℕ) (s : Sched) (k : Sched → Option Sched)
    → s.cpu_count ≡ 1
    → on_some (spin_lock this_cpu s) (λ held. on_some (sched_enqueue p held) k) ≡ none
unfolding spin_lock
locked_enqueue p s k one = elim (Bool-cases (s.runqs this_cpu).locked) [
  | inl taken ↦ rw taken refl
  | inr free ↦ rw free (ap (λ o. on_some o k) (enqueue_blocks p s one))
]

-- On a machine with one processor, `sched_yield` of a process that is neither the idle process nor the
-- one that waits for a child never returns, whatever the state of the lock is.
pub sched_yield_blocks :
    (now : ℕ) (s : Sched)
    → s.cpu_count ≡ 1
    → s.current this_cpu ≢ (s.runqs this_cpu).idle_pcb
    → is_waiter s.reap_waiter (s.current this_cpu) ≡ false
    → sched_yield now s ≡ none
unfolding sched_yield spin_lock lock_queue
sched_yield_blocks now s one busy not_waiter = elim (Bool-cases (s.runqs this_cpu).locked) [
  | inl taken ↦ rw taken refl
  | inr free ↦
      rw (free, unequal (s.current this_cpu) (s.runqs this_cpu).idle_pcb busy, not_waiter)
        (ap (λ o. on_some o (λ queued. some (run_next now queued)))
          (enqueue_blocks (s.current this_cpu) s one))
]

preempt_blocks :
    (cur now : ℕ) (s : Sched)
    → s.cpu_count ≡ 1
    → cur ≢ (s.runqs this_cpu).idle_pcb
    → (s.pcbs cur).deadline_ns ≤ now
    → (s.pcbs cur).state ≡ proc_run
    → preempt cur now s ≡ none
unfolding preempt
preempt_blocks cur now s one busy late running =
    rw
      (
        unequal cur (s.runqs this_cpu).idle_pcb busy,
        le→leb (s.pcbs cur).deadline_ns now late,
        running,
      )
      (locked_enqueue cur s (λ queued. some (run_next now queued)) one)

-- What `decay` leaves alone.
decay_keeps :
    (cur : ℕ) (s : Sched)
    → ((decay cur s).cpu_count ≡ s.cpu_count)
      × ((decay cur s).runqs ≡ s.runqs)
      × (((decay cur s).pcbs cur).deadline_ns ≡ (s.pcbs cur).deadline_ns)
      × (((decay cur s).pcbs cur).state ≡ (s.pcbs cur).state)
unfolding decay
decay_keeps cur s = elim (Bool-cases ((s.pcbs cur).sched_class == sched_intr)) [
  | inl intr ↦ rw (intr, equal_self cur) (refl, refl, refl, refl)
  | inr other ↦ rw other (refl, refl, refl, refl)
]

-- On a machine with one processor, `sched_tick` never returns when the time slice of the running
-- process is over: nobody waits for a child, and the process is neither the idle nor the bootstrap
-- process.
pub sched_tick_blocks :
    (now : ℕ) (s : Sched)
    → s.cpu_count ≡ 1
    → s.reap_waiter ≡ none
    → s.current this_cpu ≢ bootstrap
    → s.current this_cpu ≢ (s.runqs this_cpu).idle_pcb
    → (s.pcbs (s.current this_cpu)).deadline_ns ≤ now
    → (s.pcbs (s.current this_cpu)).state ≡ proc_run
    → sched_tick now s ≡ none
unfolding sched_tick
sched_tick_blocks now s one alone not_boot busy late running =
    let cur = s.current this_cpu in
    let (count, queues, deadline, state) = decay_keeps cur s in
    rw (on, alone, unequal cur bootstrap not_boot)
      (preempt_blocks cur now (decay cur s) (count ∙ one)
        (λ e. busy (e ∙ ap (λ (f : ℕ → Runq). (f this_cpu).idle_pcb) queues))
        (omega (arith, deadline)) (state ∙ running))
  where
    on : leb s.cpu_count this_cpu ≡ false
    on = ground arith
