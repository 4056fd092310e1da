-- ===== src/Sched/Proc/Find.antt =====
-- The search for a free slot of the process table in kernel/sched/sched.c, and what `sched_find` says
-- of the process that `sched_spawn` made.
use open_asd.Prelude.{
  ℕ, zero, suc, ◌+◌, ◌-◌, ◌%◌, ◌^◌, ◌≤◌, ◌<◌, ◌≡◌, refl, sym, ap, ◌∙◌, inl, inr, true, false, not,
  ◌&&◌, Option, none, some, arith, ltb, leb, ◌==◌, Bool-cases, if◌then◌else◌,
}
use open_asd.Sched.Queue.{Pcb, Sched, max_procs, proc_new, proc_dead, set_pcb}
use open_asd.Sched.Queue.Ready.{equal_self, unequal}
use open_asd.Sched.Proc.{
  SpawnArgs, is_busy, find_free, slot_of, next_after, new_pcb, sched_spawn, sched_find,
}

is_busy-slot : (pcbs : ℕ → Pcb) (p q : ℕ) → slot_of p ≡ slot_of q → is_busy pcbs p ≡ is_busy pcbs q
unfolding is_busy
is_busy-slot pcbs p q e = ap (λ i. not ((pcbs i).state == proc_dead) && not ((pcbs i).pid == 0)) e

free_at : (pcbs : ℕ → Pcb) (p q : ℕ) → p ≡ q → is_busy pcbs p ≡ false → is_busy pcbs q ≡ false
free_at pcbs p q e free = ap (is_busy pcbs) (sym e) ∙ free

-- A pid that the search gives.
abbrev IsFree : (ℕ → Pcb) → ℕ → ℕ → ℕ → Type 0
IsFree pcbs from n p = (is_busy pcbs p ≡ false) × (from ≤ p) × (p < from + n)

find_free-some :
    (n d first pid : ℕ) (pcbs : ℕ → Pcb)
    → d < n
    → first ≤ pid
    → pid + n < 2 ^ 32
    → is_busy pcbs (pid + d) ≡ false
    → (p : ℕ) × (find_free n pcbs first pid ≡ some p) × IsFree pcbs pid n p
unfolding find_free
find_free-some zero d first pid pcbs l low high free = absurd (omega arith)
find_free-some (suc n) zero first pid pcbs l low high free =
    (pid, rw at_pid refl, (at_pid, omega arith, omega arith))
  where
    at_pid : is_busy pcbs pid ≡ false
    at_pid = free_at pcbs (pid + zero) pid (omega arith) free
find_free-some (suc n) (suc d) first pid pcbs l low high free =
    elim (Bool-cases (is_busy pcbs pid)) [
      | inr this ↦ (pid, rw this refl, (this, omega arith, omega arith))
      | inl busy ↦
          let (p, found, (idle, from, upto)) =
            find_free-some n d first (pid + 1) pcbs (omega arith) (omega arith) (omega arith)
              (free_at pcbs (pid + suc d) (pid + 1 + d) (omega arith) free) in
          (
            p,
            rw (busy, next, unequal (pid + 1) first (λ e. omega arith)) found,
            (idle, omega arith, omega arith),
          )
    ]
  where
    next : (pid + 1) % 2 ^ 32 ≡ pid + 1
    next = omega arith

-- Some pid whose slot is the given one is among as many as there are slots.
pub find_free_lem :
    (first k : ℕ) (pcbs : ℕ → Pcb)
    → first < max_procs
    → k < max_procs
    → is_busy pcbs k ≡ false
    → (p : ℕ) × (find_free max_procs pcbs first first ≡ some p) × IsFree pcbs first max_procs p
find_free_lem first k pcbs low l free =
    find_free-some max_procs ((k + max_procs - first) % max_procs) first first pcbs (omega arith)
      (omega arith) (omega arith)
      (is_busy-slot pcbs (first + (k + max_procs - first) % max_procs) k (omega arith) ∙ free)

new-found :
    (pid : ℕ) (s : Sched)
    → 0 < pid
    → (s.pcbs (slot_of pid)).pid ≡ pid
    → (s.pcbs (slot_of pid)).state ≡ proc_new
    → sched_find pid s ≡ (if ltb pid max_procs then some (slot_of pid) else none)
unfolding sched_find
new-found pid s pos same new = elim (Bool-cases (ltb pid max_procs)) [
  | inl low ↦ rw (low, unequal pid 0 (λ e. omega arith), below low, same, new, equal_self pid) refl
  | inr high ↦ rw (high, unequal pid 0 (λ e. omega arith), beyond high) refl
]
  where
    below : ltb pid max_procs ≡ true → leb max_procs pid ≡ false
    below low = ground arith

    beyond : ltb pid max_procs ≡ false → leb max_procs pid ≡ true
    beyond high = ground arith

lt-not_leb : (a b : ℕ) → a < b → leb b a ≡ false
lt-not_leb a b l = ground arith

set_pcb-pcbs : (p : ℕ) (pcb : Pcb) (s : Sched) → (set_pcb p pcb s).pcbs p ≡ pcb
set_pcb-pcbs p pcb s = rw (equal_self p) refl

next_after_lem : (pid : ℕ) → (0 < next_after pid) × (next_after pid < max_procs)
next_after_lem pid = ground arith

-- A process that `sched_spawn` makes has a positive pid, its slot was free, and the slot holds the
-- new process; `sched_find` finds it there if the pid is less than 4096, and else finds nothing. It
-- does make one if there is room, a slot is free and the kernel stack was allocated. The next pid to try
-- stays a slot that is not 0.
pub sched_spawn_lem :
    (args : SpawnArgs) (ks : ℕ) (fresh_map : Option ℕ) (s : Sched) (k : ℕ)
    → s.proc_count < max_procs
    → 0 < s.next_pid
    → s.next_pid < max_procs
    → k < max_procs
    → is_busy s.pcbs k ≡ false
    → (pid : ℕ) × (s' : Sched) × (sched_spawn args (some ks) fresh_map s ≡ (pid, s'))
      × (0 < pid)
      × (is_busy s.pcbs pid ≡ false)
      × (s'.pcbs (slot_of pid) ≡ new_pcb pid args s.cpu_count (some ks) fresh_map)
      × (sched_find pid s' ≡ (if ltb pid max_procs then some (slot_of pid) else none))
      × (s'.proc_count ≡ s.proc_count + 1)
      × (0 < s'.next_pid)
      × (s'.next_pid < max_procs)
unfolding sched_spawn new_pcb
sched_spawn_lem args ks fresh_map s k room pos low l free =
    let (pid, found, (idle, from, upto)) = find_free_lem s.next_pid k s.pcbs low l free in
    let filled =
      set_pcb (slot_of pid) (new_pcb pid args s.cpu_count (some ks) fresh_map)
        (record s { next_pid = next_after pid; proc_count = s.proc_count + 1 }) in
    let here = set_pcb-pcbs (slot_of pid) (new_pcb pid args s.cpu_count (some ks) fresh_map) s in
    (
      pid,
      filled,
      rw (lt-not_leb s.proc_count max_procs room, found) refl,
      omega arith,
      idle,
      here,
      new-found pid filled (omega arith) (ap (λ (q : Pcb). q.pid) here)
          (ap (λ (q : Pcb). q.state) here),
      refl,
      (next_after_lem pid).0,
      (next_after_lem pid).1,
    )
