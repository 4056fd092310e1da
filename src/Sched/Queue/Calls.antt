-- ===== src/Sched/Queue/Calls.antt =====
-- `sched_switch_to`, `sched_tick`, `sched_yield`, `sched_wake` and `sched_state_update` of
-- kernel/sched/sched.c. `now` is what `asd_time_ns` returns. Saving and restoring registers is left to
-- the machine: the result is the state in which the next process goes on.
pub mod Locks
use open_asd.Prelude.{
  ℕ, zero, suc, ◌+◌, ◌%◌, ◌^◌, Bool, false, not, ◌&&◌, ◌||◌, Option, none, some, List, [], ◌∷◌, ltb,
  leb, ◌==◌, if◌then◌else◌,
}
use open_asd.Prelude.Find.{on_some}
use open_asd.Prelude.Int.{ℤ, pos, negsuc, ◌+ℤ◌, ◌-ℤ◌, quot, is_neg, wrap_signed}
use open_asd.Sched.Queue.{
  Pcb, Runq, Sched, sched_rt, sched_intr, proc_ready, proc_run, proc_wait, bootstrap, set_runq,
  set_pcb, spin_lock, spin_unlock, sched_enqueue, sched_dequeue,
}

abbrev pub quantum_intr_ns : ℕ
quantum_intr_ns = 4000000

abbrev pub quantum_batch_ns : ℕ
quantum_batch_ns = 50000000

abbrev pub boost : ℕ
boost = 20

-- "BSP only until per-CPU runqueues are brought up on APs."
abbrev pub this_cpu : ℕ
this_cpu = 0

abbrev pub quantum_of : ℕ → ℕ
quantum_of cls =
    if cls == sched_rt then 0 else if cls == sched_intr then quantum_intr_ns else quantum_batch_ns

abbrev pub is_waiter : Option ℕ → ℕ → Bool
is_waiter none p = false
is_waiter (some w) p = p == w

-- "Program preemption timer"
unfoldable pub arm_timer : ℕ → ℕ → Sched → Sched
arm_timer next now s =
    let quantum = quantum_of (s.pcbs next).sched_class in
    if ltb 0 quantum
    then set_pcb next (record (s.pcbs next) { deadline_ns = (now + quantum) % 2 ^ 64 }) s
    else s

unfoldable pub make_current : ℕ → ℕ → Sched → Sched
make_current cur next s0 =
    let s1 =
      if not (is_waiter s0.reap_waiter cur) && ((s0.pcbs cur).state == proc_run)
      then set_pcb cur (record (s0.pcbs cur) { state = proc_ready }) s0
      else s0 in
    let s2 = set_pcb next (record (s1.pcbs next) { state = proc_run }) s1 in
    set_runq this_cpu (record (s2.runqs this_cpu) { current = next })
      (record s2 { current = λ cpu. if cpu == this_cpu then next else s2.current cpu })

unfoldable pub sched_switch_to : ℕ → ℕ → Sched → Sched
unfolding arm_timer make_current
sched_switch_to next now s =
    let cur = s.current this_cpu in
    if ((s.pcbs next).rip == 0) || (cur == next)
    then s
    else make_current cur next (arm_timer next now s)

-- `pcb_t *next = sched_dequeue(rq); spin_unlock(&rq->lock); sched_switch_to(next);`
unfoldable pub run_next : ℕ → Sched → Sched
unfolding sched_switch_to
run_next now s =
    let r = sched_dequeue (s.runqs this_cpu) in
    sched_switch_to r.0 now (spin_unlock this_cpu (set_runq this_cpu r.1 s))

unfoldable pub sched_yield : ℕ → Sched → Option Sched
unfolding run_next
sched_yield now s =
    let cur = s.current this_cpu in
    on_some (spin_lock this_cpu s) (λ held.
      if not (cur == (held.runqs this_cpu).idle_pcb) && not (is_waiter held.reap_waiter cur)
      then on_some (sched_enqueue cur held) (λ queued. some (run_next now queued))
      else some (run_next now held))

-- "Decay INTR priority"
unfoldable pub decay : ℕ → Sched → Sched
decay cur s =
    let p = s.pcbs cur in
    let delta = wrap_signed 16 (p.base_pri -ℤ p.priority) in
    if p.sched_class == sched_intr
    then set_pcb cur (record p { priority = wrap_signed 16 (p.priority +ℤ quot delta 10) }) s
    else s

-- "Check if quantum expired"
unfoldable pub preempt : ℕ → ℕ → Sched → Option Sched
unfolding run_next
preempt cur now s =
    if not (cur == (s.runqs this_cpu).idle_pcb)
      && leb (s.pcbs cur).deadline_ns now
      && ((s.pcbs cur).state == proc_run)
    then on_some (spin_lock this_cpu s)
        (λ held. on_some (sched_enqueue cur held) (λ queued. some (run_next now queued)))
    else some s

unfoldable pub sched_tick : ℕ → Sched → Option Sched
unfolding decay preempt
sched_tick now s =
    let cur = s.current this_cpu in
    if leb s.cpu_count this_cpu then some s else elim s.reap_waiter [
      | some w ↦ some s
      | none ↦ if cur == bootstrap then some s else preempt cur now (decay cur s)
    ]

-- "Apply I/O boost for interactive processes"
unfoldable pub boosted : Pcb → Pcb
boosted p =
    let pri = wrap_signed 16 (p.base_pri -ℤ pos boost) in
    if p.sched_class == sched_intr
    then record p { priority = if is_neg pri then pos 0 else pri }
    else p

unfoldable pub sched_wake : ℕ → ℕ → Sched → Option Sched
unfolding boosted
sched_wake p now s =
    if not ((s.pcbs p).state == proc_wait)
    then some s
    else sched_enqueue p (set_pcb p (boosted (record (s.pcbs p) { wake_ns = now })) s)

-- The part of `sched_state_t` for one processor, without the times, which nothing counts.
pub record CpuState : Type 0 where
  pub rt_count : ℕ
  pub intr_count : ℕ
  pub batch_count : ℕ
  pub current_pid : ℕ

pub record StatePage : Type 0 where
  pub cpus : List CpuState
  pub total_procs : ℕ
  pub seq : ℕ

unfoldable pub cpu_states : ℕ → ℕ → Sched → List CpuState
cpu_states zero i s = []
cpu_states (suc n) i s =
    record {
      rt_count = (s.runqs i).rt_count;
      intr_count = (s.runqs i).intr_count;
      batch_count = (s.runqs i).batch_count;
      current_pid = (s.pcbs (s.current i)).pid;
    }
    ∷ cpu_states n (i + 1) s

-- The page behind the two increments of its counter.
unfoldable pub sched_state_update : Sched → StatePage → StatePage
unfolding cpu_states
sched_state_update s page = record {
  cpus = cpu_states s.cpu_count 0 s;
  total_procs = s.proc_count;
  seq = (page.seq + 2) % 2 ^ 32;
}
