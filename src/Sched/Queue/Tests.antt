-- ===== src/Sched/Queue/Tests.antt =====
-- Runs of the run queues, and their theorems at a machine with one processor.
use open_asd.Prelude.{ℕ, ◌≡◌, refl, false, none, some, [], arith}
use open_asd.Prelude.Int.{pos}
use open_asd.Sched.Tree.{black, leaf, node}
use open_asd.Sched.Queue.{
  Pcb, Runq, Sched, sched_enqueue, sched_dequeue, pick_cpu, key_of, idle_of, proc_run, proc_ready,
  sched_intr, update_at,
}
use open_asd.Prelude.Find.{count}
use open_asd.Sched.Tree.Order.{inorder}
use open_asd.Sched.Queue.Ready.{
  IsRunq, IsOut, ready_of, pop_ready, push_ready, sched_dequeue_refines, sched_enqueue_lem,
}
use open_asd.Sched.Queue.Calls.{sched_tick}
use open_asd.Sched.Queue.Calls.Locks.{sched_tick_blocks}

-- Every process is running, interactive, with its slot as priority.
abbrev pcb : ℕ → Pcb
pcb i = record {
  pid = i;
  state = proc_run;
  sched_class = sched_intr;
  cpu = 0;
  priority = pos i;
  base_pri = pos i;
  cpu_ns = 0;
  wake_ns = 0;
  deadline_ns = 100;
  va_map = none;
  exit_code = pos 0;
  name = [];
  uid = 0;
  gid = 0;
  kstack = none;
  rip = 0;
  rflags = 0x202;
  cs = 0x08;
  ss = 0x10;
  cr3 = 0;
}

-- Process 7 waits.
abbrev runq : Runq
runq = record {
  locked = false;
  rt_tree = leaf;
  intr_tree = node black leaf 7 leaf;
  batch_tree = leaf;
  rt_count = 0;
  intr_count = 1;
  batch_count = 0;
  current = 5;
  idle_pcb = idle_of 0;
}

abbrev machine : Sched
machine = record {
  cpu_count = 1;
  runqs = λ i. runq;
  pcbs = pcb;
  next_pid = 8;
  proc_count = 2;
  current = λ i. 5;
  reap_waiter = none;
}

runq-IsRunq : IsRunq (key_of pcb) runq
unfolding inorder count key_of
runq-IsRunq = record {
  rt = record { counted = refl; few = omega arith; sorted = tt; once = λ p. omega arith };
  intr = record { counted = refl; few = omega arith; sorted = tt; once = λ p. ground arith };
  batch = record { counted = refl; few = omega arith; sorted = tt; once = λ p. omega arith };
}

five-IsOut : IsOut 5 runq
unfolding inorder count
five-IsOut = (refl, refl, refl)

sched_dequeue_refines_example :
    ((sched_dequeue runq).0 ≡ (pop_ready (ready_of runq) runq.idle_pcb).0)
    × (ready_of (sched_dequeue runq).1 ≡ (pop_ready (ready_of runq) runq.idle_pcb).1)
    × IsRunq (key_of pcb) (sched_dequeue runq).1
sched_dequeue_refines_example = sched_dequeue_refines (key_of pcb) runq runq-IsRunq

sched_enqueue_lem_example :
    (s' : Sched) × (sched_enqueue 5 machine ≡ some s')
    × (ready_of (s'.runqs (pick_cpu 5 machine))
        ≡ push_ready (key_of pcb) sched_intr 5 (ready_of runq))
    × IsRunq (key_of s'.pcbs) (s'.runqs (pick_cpu 5 machine))
    × ((s'.runqs (pick_cpu 5 machine)).locked ≡ false)
    × ((s'.pcbs 5).state ≡ proc_ready)
    × (s'.runqs ≡ update_at machine.runqs (pick_cpu 5 machine) (s'.runqs (pick_cpu 5 machine)))
sched_enqueue_lem_example =
    sched_enqueue_lem 5 machine refl runq-IsRunq (omega arith, omega arith, omega arith) five-IsOut

-- The time slice of process 5 ends at 100.
sched_tick_blocks_example : sched_tick 100 machine ≡ none
sched_tick_blocks_example =
    sched_tick_blocks 100 machine refl refl (λ e. omega (arith, e)) (λ e. omega (arith, e))
      (omega arith) refl
