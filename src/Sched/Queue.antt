-- ===== src/Sched/Queue.antt =====
-- The processes and run queues of kernel/sched/sched.c. A pointer to a process is a number: its slot
-- in the process table, or one behind the table for an idle process or the bootstrap process. The
-- lock of a queue is taken by the processor that runs, which is always processor 0 in the source;
-- taking one that this processor holds already never ends, and the result is none. Other processors
-- are not modelled.
pub mod Class
pub mod Ready
pub mod Calls
mod Tests
use open_asd.Prelude.{
  ℕ, zero, suc, ◌+◌, ◌-◌, ◌%◌, ◌^◌, Bool, true, false, Option, none, some, List, ltb, ◌==◌,
  if◌then◌else◌,
}
use open_asd.Prelude.Find.{on_some}
use open_asd.Prelude.Int.{ℤ, pos, negsuc}
use open_asd.Sched.Tree.{Tree, leaf, rb_insert, rb_leftmost, rb_remove_node}

abbrev pub max_procs : ℕ
max_procs = 4096

abbrev pub max_cpus : ℕ
max_cpus = 64

abbrev pub sched_rt : ℕ
sched_rt = 0

abbrev pub sched_intr : ℕ
sched_intr = 1

abbrev pub sched_batch : ℕ
sched_batch = 2

abbrev pub proc_new : ℕ
proc_new = 0

abbrev pub proc_ready : ℕ
proc_ready = 1

abbrev pub proc_run : ℕ
proc_run = 2

abbrev pub proc_wait : ℕ
proc_wait = 3

abbrev pub proc_dead : ℕ
proc_dead = 4

-- `g_idle_pcb[i]` and `g_bootstrap_pcb`.
abbrev pub idle_of : ℕ → ℕ
idle_of cpu = max_procs + cpu

abbrev pub bootstrap : ℕ
bootstrap = max_procs + max_cpus

-- `pcb_t`, with the registers that the scheduler reads or sets.
pub record Pcb : Type 0 where
  pub pid : ℕ
  pub state : ℕ
  pub sched_class : ℕ
  pub cpu : ℕ
  pub priority : ℤ
  pub base_pri : ℤ
  pub cpu_ns : ℕ
  pub wake_ns : ℕ
  pub deadline_ns : ℕ
  pub va_map : Option ℕ
  pub exit_code : ℤ
  pub name : List ℕ
  pub uid : ℕ
  pub gid : ℕ
  pub kstack : Option ℕ
  pub rip : ℕ
  pub rflags : ℕ
  pub cs : ℕ
  pub ss : ℕ
  pub cr3 : ℕ

-- `runq_t`
pub record Runq : Type 0 where
  pub locked : Bool
  pub rt_tree : Tree ℕ
  pub intr_tree : Tree ℕ
  pub batch_tree : Tree ℕ
  pub rt_count : ℕ
  pub intr_count : ℕ
  pub batch_count : ℕ
  pub current : ℕ
  pub idle_pcb : ℕ

-- The globals of sched.c.
pub record Sched : Type 0 where
  pub cpu_count : ℕ
  pub runqs : ℕ → Runq
  pub pcbs : ℕ → Pcb
  pub next_pid : ℕ
  pub proc_count : ℕ
  pub current : ℕ → ℕ
  pub reap_waiter : Option ℕ

abbrev pub update_at {ℓ} : {A : Type ℓ} → (ℕ → A) → ℕ → A → ℕ → A
update_at f i v j = if j == i then v else f j

abbrev pub set_runq : ℕ → Runq → Sched → Sched
set_runq cpu rq s = record s { runqs = update_at s.runqs cpu rq }

abbrev pub set_pcb : ℕ → Pcb → Sched → Sched
set_pcb p pcb s = record s { pcbs = update_at s.pcbs p pcb }

-- An `int16_t` in the order of its values, from 0 on.
abbrev pub rank : ℤ → ℕ
rank (pos n) = 2 ^ 15 + n
rank (negsuc n) = 2 ^ 15 - 1 - n

-- What a comparison in a tree reads of a process.
unfoldable pub key_of : (ℕ → Pcb) → ℕ → ℕ
key_of pcbs p = rank (pcbs p).priority

unfoldable pub lock_queue : ℕ → Sched → Sched
lock_queue cpu s = set_runq cpu (record (s.runqs cpu) { locked = true }) s

unfoldable pub spin_lock : ℕ → Sched → Option Sched
unfolding lock_queue
spin_lock cpu s = if (s.runqs cpu).locked then none else some (lock_queue cpu s)

unfoldable pub spin_unlock : ℕ → Sched → Sched
spin_unlock cpu s = set_runq cpu (record (s.runqs cpu) { locked = false }) s

abbrev pub load_of : Runq → ℕ
load_of rq = (rq.rt_count + rq.intr_count + rq.batch_count) % 2 ^ 32

-- "Find least-loaded CPU", from processor `i` on for `n` more.
unfoldable pub least_loaded : ℕ → ℕ → (ℕ → Runq) → ℕ → ℕ → ℕ
least_loaded zero i runqs min_load cpu = cpu
least_loaded (suc n) i runqs min_load cpu =
    let better = least_loaded n (i + 1) runqs (load_of (runqs i)) i in
    let same = least_loaded n (i + 1) runqs min_load cpu in
    if ltb (load_of (runqs i)) min_load then better else same

-- The `switch` on the class: the process goes into its tree.
unfoldable pub insert_into : (ℕ → Pcb) → ℕ → Runq → Runq
insert_into pcbs p rq =
    let key = key_of pcbs in
    if (pcbs p).sched_class == sched_rt
    then record rq { rt_tree = rb_insert key p rq.rt_tree; rt_count = (rq.rt_count + 1) % 2 ^ 32 }
    else if (pcbs p).sched_class == sched_intr
    then record rq {
      intr_tree = rb_insert key p rq.intr_tree;
      intr_count = (rq.intr_count + 1) % 2 ^ 32;
    }
    else record rq {
      batch_tree = rb_insert key p rq.batch_tree;
      batch_count = (rq.batch_count + 1) % 2 ^ 32;
    }

-- The processor that `sched_enqueue` picks.
unfoldable pub pick_cpu : ℕ → Sched → ℕ
unfolding least_loaded
pick_cpu p s =
    if ltb (s.pcbs p).cpu s.cpu_count
    then (s.pcbs p).cpu
    else least_loaded s.cpu_count 0 s.runqs 0xFFFFFFFF 0

-- `pcb->cpu = (uint8_t)cpu; pcb->state = PROC_READY;`
unfoldable pub make_ready : ℕ → ℕ → Sched → Sched
make_ready p cpu s = set_pcb p (record (s.pcbs p) { cpu = cpu % 2 ^ 8; state = proc_ready }) s

-- From the `switch` on the class on.
unfoldable pub insert_locked : ℕ → ℕ → Sched → Sched
unfolding insert_into spin_unlock
insert_locked p cpu s = spin_unlock cpu (set_runq cpu (insert_into s.pcbs p (s.runqs cpu)) s)

unfoldable pub sched_enqueue : ℕ → Sched → Option Sched
unfolding pick_cpu insert_locked spin_lock make_ready
sched_enqueue p s =
    let cpu = pick_cpu p s in
    on_some (spin_lock cpu (make_ready p cpu s)) (λ held. some (insert_locked p cpu held))

abbrev pub same_pcb : ℕ → ℕ → Bool
same_pcb p q = q == p

-- `if (n) { rb_remove_node(…); count--; }` on a tree and its counter: the process, the tree, the
-- counter.
unfoldable pub take_found : Option ℕ → Tree ℕ → ℕ → Option ℕ × Tree ℕ × ℕ
take_found none t n = (none, t, n)
take_found (some p) t n = (some p, rb_remove_node (same_pcb p) t, (n + (2 ^ 32 - 1)) % 2 ^ 32)

unfoldable pub take_first : Tree ℕ → ℕ → Option ℕ × Tree ℕ × ℕ
unfolding take_found
take_first t n = take_found (rb_leftmost t) t n

abbrev pub or_idle : Option ℕ → ℕ → ℕ
or_idle none idle = idle
or_idle (some p) idle = p

-- The process that runs next, and the queue without it.
unfoldable pub sched_dequeue : Runq → ℕ × Runq
unfolding take_first
sched_dequeue rq =
    let rt = take_first rq.rt_tree rq.rt_count in
    let intr = take_first rq.intr_tree rq.intr_count in
    let batch = take_first rq.batch_tree rq.batch_count in
    if ltb 0 rq.rt_count
    then (or_idle rt.0 rq.idle_pcb, record rq { rt_tree = rt.1; rt_count = rt.2 })
    else if ltb 0 rq.intr_count
    then (or_idle intr.0 rq.idle_pcb, record rq { intr_tree = intr.1; intr_count = intr.2 })
    else if ltb 0 rq.batch_count
    then (or_idle batch.0 rq.idle_pcb, record rq { batch_tree = batch.1; batch_count = batch.2 })
    else (rq.idle_pcb, rq)
