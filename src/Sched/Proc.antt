-- ===== src/Sched/Proc.antt =====
-- The process table of kernel/sched/sched.c: `sched_spawn`, `sched_find`, `sched_set` and
-- `sched_current`. `kstack` and `fresh_map` are what `kmalloc` and `amm_vmap_create` return.
pub mod Find
mod Tests
use open_asd.Prelude.{
  ℕ, zero, suc, ◌+◌, ◌-◌, ◌%◌, ◌^◌, Bool, not, ◌&&◌, ◌||◌, Option, none, some, List, [], ◌∷◌, Rc,
  ok, fail, leb, ◌==◌, take, if◌then◌else◌,
}
use open_asd.Prelude.Int.{ℤ, pos, negsuc, wrap_signed}
use open_asd.Sched.Queue.{Pcb, Sched, max_procs, proc_new, proc_dead, set_pcb}

abbrev pub sched_name_len : ℕ
sched_name_len = 32

-- `spawn_args_t`, without the argument and environment vectors, which nothing reads.
pub record SpawnArgs : Type 0 where
  pub binary : List ℕ
  pub sched_class : ℕ
  pub priority : ℤ
  pub cpu_affinity : ℕ
  pub va_map : Option ℕ

abbrev pub slot_of : ℕ → ℕ
slot_of pid = pid % max_procs

unfoldable pub is_busy : (ℕ → Pcb) → ℕ → Bool
is_busy pcbs pid =
    not ((pcbs (slot_of pid)).state == proc_dead) && not ((pcbs (slot_of pid)).pid == 0)

-- "Find a free slot", from `pid` on. As many turns as there are slots try every slot; when all are
-- taken the source goes on to the end of 32 bits before it gives up.
unfoldable pub find_free : ℕ → (ℕ → Pcb) → ℕ → ℕ → Option ℕ
unfolding is_busy
find_free zero pcbs first pid = none
find_free (suc n) pcbs first pid =
    let next = (pid + 1) % 2 ^ 32 in
    let rest = find_free n pcbs first next in
    if is_busy pcbs pid then (if next == first then none else rest) else some pid

-- "Name from binary path (last component)"
unfoldable pub last_part : List ℕ → List ℕ → List ℕ
last_part n [] = n
last_part n (c ∷ cs) = if c == b'/' then last_part cs cs else last_part n cs

-- The process that `sched_spawn` fills in.
unfoldable pub new_pcb : ℕ → SpawnArgs → ℕ → Option ℕ → Option ℕ → Pcb
unfolding last_part
new_pcb pid args cpu_count kstack fresh_map = record {
  pid = pid;
  state = proc_new;
  sched_class = args.sched_class;
  cpu = if args.cpu_affinity == 0xFF then cpu_count % 2 ^ 8 else args.cpu_affinity;
  priority = wrap_signed 16 args.priority;
  base_pri = wrap_signed 16 args.priority;
  cpu_ns = 0;
  wake_ns = 0;
  deadline_ns = 2 ^ 64 - 1;
  va_map = elim args.va_map [ none ↦ fresh_map | some m ↦ some m ];
  exit_code = pos 0;
  name = take (sched_name_len - 1) (last_part args.binary args.binary);
  uid = 0;
  gid = 0;
  kstack = kstack;
  rip = 0;
  rflags = 0x202;
  cs = 0x08;
  ss = 0x10;
  cr3 = 0;
}

abbrev pub next_after : ℕ → ℕ
next_after pid = if (pid + 1) % 2 ^ 32 % max_procs == 0 then 1 else (pid + 1) % 2 ^ 32 % max_procs

-- A slot that has been cleared and named, though no stack was found for it.
unfoldable pub abandoned : ℕ → SpawnArgs → ℕ → Pcb
unfolding new_pcb
abandoned pid args cpu_count = record (new_pcb pid args cpu_count none none) {
  deadline_ns = 0;
  va_map = none;
  rflags = 0;
  cs = 0;
  ss = 0;
}

-- The pid, 0 on an error. A slot without a stack keeps the new pid.
unfoldable pub sched_spawn : SpawnArgs → Option ℕ → Option ℕ → Sched → ℕ × Sched
unfolding find_free new_pcb abandoned
sched_spawn args kstack fresh_map s =
    if leb max_procs s.proc_count
    then (0, s)
    else elim (find_free max_procs s.pcbs s.next_pid s.next_pid) [
      | none ↦ (0, s)
      | some pid ↦
          let s1 = record s { next_pid = next_after pid } in
          elim kstack [
            | none ↦ (0, set_pcb (slot_of pid) (abandoned pid args s.cpu_count) s1)
            | some ks ↦ (
              pid,
              set_pcb (slot_of pid) (new_pcb pid args s.cpu_count (some ks) fresh_map)
                  (record s1 { proc_count = s.proc_count + 1 }),
            )
          ]
    ]

-- The slot of a process.
unfoldable pub sched_find : ℕ → Sched → Option ℕ
sched_find pid s =
    if (pid == 0) || leb max_procs pid
    then none
    else if ((s.pcbs (slot_of pid)).pid == pid) && not ((s.pcbs (slot_of pid)).state == proc_dead)
    then some (slot_of pid)
    else none

-- The priority changes in place: a process in a tree stays where it is.
unfoldable pub sched_set : ℕ → ℕ → ℤ → Sched → Rc × Sched
unfolding sched_find
sched_set pid cls priority s = elim (sched_find pid s) [
  | none ↦ (fail, s)
  | some p ↦ (
    ok,
    set_pcb p
        (record (s.pcbs p) {
          sched_class = cls;
          base_pri = wrap_signed 16 priority;
          priority = wrap_signed 16 priority;
        })
        s,
  )
]

abbrev pub sched_current : Sched → ℕ
sched_current s = s.current 0
