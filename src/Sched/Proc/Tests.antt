-- ===== src/Sched/Proc/Tests.antt =====
-- Runs of the process table, and its theorem at a table with one process.
use open_asd.Prelude.{
  ℕ, ◌+◌, ◌<◌, ◌≡◌, refl, false, none, some, [], ◌∷◌, arith, ltb, ◌==◌, if◌then◌else◌,
}
use open_asd.Prelude.Int.{pos}
use open_asd.Sched.Tree.{leaf}
use open_asd.Sched.Queue.{Pcb, Sched, max_procs, idle_of, proc_new, sched_batch}
use open_asd.Sched.Proc.{SpawnArgs, is_busy, slot_of, new_pcb, sched_spawn, sched_find}
use open_asd.Sched.Proc.Find.{sched_spawn_lem}

abbrev no_pcb : Pcb
no_pcb = record {
  pid = 0;
  state = proc_new;
  sched_class = 0;
  cpu = 0;
  priority = pos 0;
  base_pri = pos 0;
  cpu_ns = 0;
  wake_ns = 0;
  deadline_ns = 0;
  va_map = none;
  exit_code = pos 0;
  name = [];
  uid = 0;
  gid = 0;
  kstack = none;
  rip = 0;
  rflags = 0;
  cs = 0;
  ss = 0;
  cr3 = 0;
}

-- All slots but slot 1 are taken.
abbrev pcbs : ℕ → Pcb
pcbs i = if i == 1 then no_pcb else record no_pcb { pid = i + 1 }

-- The search starts behind the only free slot.
abbrev table : Sched
table = record {
  cpu_count = 1;
  runqs = λ i. record {
    locked = false;
    rt_tree = leaf;
    intr_tree = leaf;
    batch_tree = leaf;
    rt_count = 0;
    intr_count = 0;
    batch_count = 0;
    current = idle_of 0;
    idle_pcb = idle_of 0;
  };
  pcbs = pcbs;
  next_pid = 2;
  proc_count = 4095;
  current = λ i. idle_of 0;
  reap_waiter = none;
}

abbrev args : SpawnArgs
args = record {
  binary = b'/' ∷ b's' ∷ b'h' ∷ [];
  sched_class = sched_batch;
  priority = pos 4;
  cpu_affinity = 0xFF;
  va_map = none;
}

one_free : is_busy pcbs 1 ≡ false
unfolding is_busy
one_free = refl

sched_spawn_lem_example :
    (pid : ℕ) × (s' : Sched) × (sched_spawn args (some 9) none table ≡ (pid, s'))
    × (0 < pid)
    × (is_busy pcbs pid ≡ false)
    × (s'.pcbs (slot_of pid) ≡ new_pcb pid args 1 (some 9) none)
    × (sched_find pid s' ≡ (if ltb pid max_procs then some (slot_of pid) else none))
    × (s'.proc_count ≡ 4096)
    × (0 < s'.next_pid)
    × (s'.next_pid < max_procs)
sched_spawn_lem_example =
    sched_spawn_lem args 9 none table 1 (omega arith) (omega arith) (omega arith) (omega arith)
      one_free
