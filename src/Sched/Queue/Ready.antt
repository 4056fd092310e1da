-- ===== src/Sched/Queue/Ready.antt =====
-- What the run queue of a processor promises (kernel/sched/sched.c): three sorted lists, of which the
-- first that is not empty gives the next process.
use open_asd.Prelude.{
  ℕ, ◌+◌, ◌%◌, ◌^◌, ◌<◌, ◌≡◌, refl, sym, ap, ◌∙◌, ◌≢◌, inl, inr, true, false, none, some, List, [],
  ◌∷◌, arith, ltb, ◌==◌, ==_iff, Bool-cases, length, if◌then◌else◌,
}
use mathlib.Core.Path.{fun_ext, subst, ap₂}
use open_asd.Prelude.Find.{count, on_some}
use open_asd.Sched.Tree.Order.{inorder, insert_by}
use open_asd.Sched.Tree.Remove.{head?}
use open_asd.Sched.Queue.{
  Pcb, Runq, Sched, sched_rt, sched_intr, proc_ready, key_of, same_pcb, or_idle, insert_into,
  pick_cpu, spin_lock, spin_unlock, lock_queue, make_ready, insert_locked, update_at, rank,
  sched_enqueue, sched_dequeue,
}
use open_asd.Sched.Queue.Class.{IsClass, tail_of, insert-IsClass, take_first-IsClass}

pub record Ready : Type 0 where
  pub rt : List ℕ
  pub intr : List ℕ
  pub batch : List ℕ

-- The processes in a queue, in the order in which they will run.
unfoldable pub ready_of : Runq → Ready
ready_of rq = record {
  rt = inorder rq.rt_tree;
  intr = inorder rq.intr_tree;
  batch = inorder rq.batch_tree;
}

pop_lists : List ℕ → List ℕ → List ℕ → ℕ → ℕ × Ready
pop_lists (p ∷ rt) intr batch idle = (p, record { rt = rt; intr = intr; batch = batch })
pop_lists [] (p ∷ intr) batch idle = (p, record { rt = []; intr = intr; batch = batch })
pop_lists [] [] (p ∷ batch) idle = (p, record { rt = []; intr = []; batch = batch })
pop_lists [] [] [] idle = (idle, record { rt = []; intr = []; batch = [] })

-- The first process of the first list that has one, or else the idle process.
unfoldable pub pop_ready : Ready → ℕ → ℕ × Ready
unfolding pop_lists
pop_ready r idle = pop_lists r.rt r.intr r.batch idle

-- Into the list of its class, behind all whose key is not greater.
unfoldable pub push_ready : (ℕ → ℕ) → ℕ → ℕ → Ready → Ready
push_ready key cls p r =
    if cls == sched_rt
    then record r { rt = insert_by key p r.rt }
    else if cls == sched_intr
    then record r { intr = insert_by key p r.intr }
    else record r { batch = insert_by key p r.batch }

pub record IsRunq (key : ℕ → ℕ) (rq : Runq) : Type 0 where
  pub rt : IsClass key rq.rt_tree rq.rt_count
  pub intr : IsClass key rq.intr_tree rq.intr_count
  pub batch : IsClass key rq.batch_tree rq.batch_count

-- A process that is in none of the trees.
abbrev pub IsOut : ℕ → Runq → Type 0
IsOut p rq =
    (count (same_pcb p) (inorder rq.rt_tree) ≡ 0)
    × (count (same_pcb p) (inorder rq.intr_tree) ≡ 0)
    × (count (same_pcb p) (inorder rq.batch_tree) ≡ 0)

-- No counter is at its end.
abbrev pub HasRoom : Runq → Type 0
HasRoom rq =
    (rq.rt_count + 1 < 2 ^ 32) × (rq.intr_count + 1 < 2 ^ 32) × (rq.batch_count + 1 < 2 ^ 32)

is_empty : (xs : List ℕ) (n : ℕ) → length xs ≡ n → ltb 0 n ≡ false → xs ≡ []
is_empty [] n e h = refl
is_empty (x ∷ xs) n e h = ground arith

pop_rt :
    (rt intr batch : List ℕ) (idle n : ℕ)
    → length rt ≡ n
    → ltb 0 n ≡ true
    → pop_lists rt intr batch idle
      ≡ (or_idle (head? rt) idle, record { rt = tail_of rt; intr = intr; batch = batch })
unfolding pop_lists
pop_rt [] intr batch idle n e h = ground arith
pop_rt (p ∷ rt) intr batch idle n e h = refl

pop_intr :
    (intr batch : List ℕ) (idle n : ℕ)
    → length intr ≡ n
    → ltb 0 n ≡ true
    → pop_lists [] intr batch idle
      ≡ (or_idle (head? intr) idle, record { rt = []; intr = tail_of intr; batch = batch })
unfolding pop_lists
pop_intr [] batch idle n e h = ground arith
pop_intr (p ∷ intr) batch idle n e h = refl

pop_batch :
    (batch : List ℕ) (idle : ℕ)
    → pop_lists [] [] batch idle
      ≡ (or_idle (head? batch) idle, record { rt = []; intr = []; batch = tail_of batch })
unfolding pop_lists
pop_batch [] idle = refl
pop_batch (p ∷ batch) idle = refl

module _ (key : ℕ → ℕ) (rq : Runq) (v : IsRunq key rq) where
  -- `sched_dequeue` on a queue with right counters returns the first process of the first class that
  -- has one, in the order RT, INTR, BATCH, or else the idle process; exactly that process leaves the
  -- queue, and the queue stays one with right counters, sorted trees and no process twice.
  pub sched_dequeue_refines :
      ((sched_dequeue rq).0 ≡ (pop_ready (ready_of rq) rq.idle_pcb).0)
      × (ready_of (sched_dequeue rq).1 ≡ (pop_ready (ready_of rq) rq.idle_pcb).1)
      × IsRunq key (sched_dequeue rq).1
  unfolding sched_dequeue pop_ready ready_of
  sched_dequeue_refines = elim (Bool-cases (ltb 0 rq.rt_count)) [
    | inl some_rt ↦
        let (first, rest, good) = take_first-IsClass key rq.rt_tree rq.rt_count v.rt in
        rw
          (
            some_rt,
            pop_rt (inorder rq.rt_tree) (inorder rq.intr_tree) (inorder rq.batch_tree) rq.idle_pcb
                rq.rt_count v.rt.counted some_rt,
          )
          (
            ap (λ o. or_idle o rq.idle_pcb) first,
            ap (λ t. record { rt = t; intr = inorder rq.intr_tree; batch = inorder rq.batch_tree })
                rest,
            record { rt = good; intr = v.intr; batch = v.batch },
          )
    | inr no_rt ↦
        let none_rt = is_empty (inorder rq.rt_tree) rq.rt_count v.rt.counted no_rt in
        elim (Bool-cases (ltb 0 rq.intr_count)) [
          | inl some_intr ↦
              let (first, rest, good) = take_first-IsClass key rq.intr_tree rq.intr_count v.intr in
              rw
                (
                  no_rt,
                  some_intr,
                  none_rt,
                  pop_intr (inorder rq.intr_tree) (inorder rq.batch_tree) rq.idle_pcb rq.intr_count
                      v.intr.counted some_intr,
                )
                (
                  ap (λ o. or_idle o rq.idle_pcb) first,
                  ap (λ t. record { rt = []; intr = t; batch = inorder rq.batch_tree }) rest,
                  record { rt = v.rt; intr = good; batch = v.batch },
                )
          | inr no_intr ↦
              let none_intr =
                is_empty (inorder rq.intr_tree) rq.intr_count v.intr.counted no_intr in
              elim (Bool-cases (ltb 0 rq.batch_count)) [
                | inl some_batch ↦
                    let (first, rest, good) =
                      take_first-IsClass key rq.batch_tree rq.batch_count v.batch in
                    rw
                      (
                        no_rt,
                        no_intr,
                        some_batch,
                        none_rt,
                        none_intr,
                        pop_batch (inorder rq.batch_tree) rq.idle_pcb,
                      )
                      (
                        ap (λ o. or_idle o rq.idle_pcb) first,
                        ap (λ t. record { rt = []; intr = []; batch = t }) rest,
                        record { rt = v.rt; intr = v.intr; batch = good },
                      )
                | inr no_batch ↦
                    let none_batch =
                      is_empty (inorder rq.batch_tree) rq.batch_count v.batch.counted no_batch in
                    rw (no_rt, no_intr, no_batch, none_rt, none_intr, none_batch, pop_lists)
                      (refl, refl, v)
              ]
        ]
  ]

-- The queue with one more process.
insert_into_lem :
    (pcbs : ℕ → Pcb) (p : ℕ) (rq : Runq)
    → IsRunq (key_of pcbs) rq
    → HasRoom rq
    → IsOut p rq
    → (ready_of (insert_into pcbs p rq)
        ≡ push_ready (key_of pcbs) (pcbs p).sched_class p (ready_of rq))
      × IsRunq (key_of pcbs) (insert_into pcbs p rq)
unfolding insert_into ready_of push_ready
insert_into_lem pcbs p rq v room out = elim (Bool-cases ((pcbs p).sched_class == sched_rt)) [
  | inl rt ↦
      let (placed, good) =
        insert-IsClass (key_of pcbs) p rq.rt_tree rq.rt_count v.rt room.0 out.0 in
      rw rt (
        ap (λ t. record { rt = t; intr = inorder rq.intr_tree; batch = inorder rq.batch_tree })
            placed,
        record { rt = good; intr = v.intr; batch = v.batch },
      )
  | inr not_rt ↦ elim (Bool-cases ((pcbs p).sched_class == sched_intr)) [
    | inl intr ↦
        let (placed, good) =
          insert-IsClass (key_of pcbs) p rq.intr_tree rq.intr_count v.intr room.1 out.1 in
        rw (not_rt, intr)
          (
            ap (λ t. record { rt = inorder rq.rt_tree; intr = t; batch = inorder rq.batch_tree })
                placed,
            record { rt = v.rt; intr = good; batch = v.batch },
          )
    | inr not_intr ↦
        let (placed, good) =
          insert-IsClass (key_of pcbs) p rq.batch_tree rq.batch_count v.batch room.2 out.2 in
        rw (not_rt, not_intr)
          (
            ap (λ t. record { rt = inorder rq.rt_tree; intr = inorder rq.intr_tree; batch = t })
                placed,
            record { rt = v.rt; intr = v.intr; batch = good },
          )
  ]
]

pub equal_self : (i : ℕ) → (i == i) ≡ true
equal_self i = ground arith

pub unequal : (i j : ℕ) → i ≢ j → (i == j) ≡ false
unequal i j ne = ground arith

same_ne : (i j : ℕ) → (i == j) ≡ false → i ≢ j
same_ne i j h e = ground arith

module _ (p : ℕ) (s : Sched) (cpu : ℕ) where
  held : Runq
  held = record (s.runqs cpu) { locked = true }

  enqueued : Sched
  enqueued = insert_locked p cpu (lock_queue cpu (make_ready p cpu s))

  runqs-enqueued :
      enqueued.runqs cpu ≡ record (insert_into (make_ready p cpu s).pcbs p held) { locked = false }
  unfolding enqueued insert_locked spin_unlock lock_queue make_ready held
  runqs-enqueued = rw (equal_self cpu) refl

  runqs-enqueued_ne : (k : ℕ) → k ≢ cpu → enqueued.runqs k ≡ s.runqs k
  unfolding enqueued insert_locked spin_unlock lock_queue make_ready
  runqs-enqueued_ne k ne = rw (unequal k cpu ne) refl

  pcbs-enqueued : enqueued.pcbs ≡ (make_ready p cpu s).pcbs
  unfolding enqueued insert_locked spin_unlock lock_queue
  pcbs-enqueued = refl

  pcb-ready :
      (make_ready p cpu s).pcbs p ≡ record (s.pcbs p) { cpu = cpu % 2 ^ 8; state = proc_ready }
  unfolding make_ready
  pcb-ready = rw (equal_self p) refl

  key_of-ready : key_of (make_ready p cpu s).pcbs ≡ key_of s.pcbs
  unfolding key_of make_ready
  key_of-ready = fun_ext (λ q. same q)
    where
      same :
          (q : ℕ)
          → rank
              (update_at s.pcbs p
                (record (s.pcbs p) { cpu = cpu % 2 ^ 8; state = proc_ready })
                q).priority
            ≡ rank (s.pcbs q).priority
      same q = elim (Bool-cases (q == p)) [
        | inl this ↦ rw (this, (==_iff q p).0 this) refl
        | inr other ↦ rw other refl
      ]

  enqueued_lem :
      IsRunq (key_of s.pcbs) (s.runqs cpu)
      → HasRoom (s.runqs cpu)
      → IsOut p (s.runqs cpu)
      → (ready_of (enqueued.runqs cpu)
          ≡ push_ready (key_of s.pcbs) (s.pcbs p).sched_class p (ready_of (s.runqs cpu)))
        × IsRunq (key_of s.pcbs) (enqueued.runqs cpu)
  unfolding held ready_of
  enqueued_lem v room out =
      let (placed, good) =
        insert_into_lem (make_ready p cpu s).pcbs p held
          (subst (λ key. IsRunq key held) (sym key_of-ready)
            (record { rt = v.rt; intr = v.intr; batch = v.batch }))
          room out in
      (
        ap ready_of runqs-enqueued
            ∙ placed
            ∙ ap₂ (λ key cls. push_ready key cls p (ready_of (s.runqs cpu))) key_of-ready
                (ap (λ (q : Pcb). q.sched_class) pcb-ready),
        subst (λ rq. IsRunq (key_of s.pcbs) rq) (sym runqs-enqueued)
            (subst
              (λ key.
                IsRunq key
                  (record (insert_into (make_ready p cpu s).pcbs p held) { locked = false }))
              key_of-ready (record { rt = good.rt; intr = good.intr; batch = good.batch })),
      )

spin_lock_free :
    (cpu : ℕ) (t : Sched) → (t.runqs cpu).locked ≡ false → spin_lock cpu t ≡ some (lock_queue cpu t)
unfolding spin_lock
spin_lock_free cpu t free = ap (λ b. if b then none else some (lock_queue cpu t)) free

pub spin_lock_held : (cpu : ℕ) (t : Sched) → (t.runqs cpu).locked ≡ true → spin_lock cpu t ≡ none
unfolding spin_lock
spin_lock_held cpu t taken = ap (λ b. if b then none else some (lock_queue cpu t)) taken

locked-ready :
    (p cpu : ℕ) (s : Sched) → ((make_ready p cpu s).runqs cpu).locked ≡ (s.runqs cpu).locked
unfolding make_ready
locked-ready p cpu s = refl

sched_enqueue_free :
    (p : ℕ) (s : Sched)
    → (s.runqs (pick_cpu p s)).locked ≡ false
    → sched_enqueue p s ≡ some (enqueued p s (pick_cpu p s))
unfolding sched_enqueue enqueued
sched_enqueue_free p s free =
    ap (λ o. on_some o (λ held. some (insert_locked p (pick_cpu p s) held)))
      (spin_lock_free (pick_cpu p s) (make_ready p (pick_cpu p s) s)
        (locked-ready p (pick_cpu p s) s ∙ free))

pub sched_enqueue_held :
    (p : ℕ) (s : Sched) → (s.runqs (pick_cpu p s)).locked ≡ true → sched_enqueue p s ≡ none
unfolding sched_enqueue
sched_enqueue_held p s taken =
    ap (λ o. on_some o (λ held. some (insert_locked p (pick_cpu p s) held)))
      (spin_lock_held (pick_cpu p s) (make_ready p (pick_cpu p s) s)
        (locked-ready p (pick_cpu p s) s ∙ taken))

-- `sched_enqueue` makes the process ready on the processor that it picks: if that processor's lock is
-- free, its counters are not at their end and the process is in none of its trees, the call returns,
-- the process is put into the list of its class behind those whose priority is not greater, the queue
-- stays one with right counters, sorted trees and no process twice, the lock is free again, and the
-- other processors' queues are untouched.
pub sched_enqueue_lem :
    (p : ℕ) (s : Sched)
    → (s.runqs (pick_cpu p s)).locked ≡ false
    → IsRunq (key_of s.pcbs) (s.runqs (pick_cpu p s))
    → HasRoom (s.runqs (pick_cpu p s))
    → IsOut p (s.runqs (pick_cpu p s))
    → (s' : Sched) × (sched_enqueue p s ≡ some s')
      × (ready_of (s'.runqs (pick_cpu p s))
          ≡ push_ready (key_of s.pcbs) (s.pcbs p).sched_class p (ready_of (s.runqs (pick_cpu p s))))
      × IsRunq (key_of s'.pcbs) (s'.runqs (pick_cpu p s))
      × ((s'.runqs (pick_cpu p s)).locked ≡ false)
      × ((s'.pcbs p).state ≡ proc_ready)
      × (s'.runqs ≡ update_at s.runqs (pick_cpu p s) (s'.runqs (pick_cpu p s)))
sched_enqueue_lem p s free v room out =
    let (placed, good) = enqueued_lem p s (pick_cpu p s) v room out in
    (
      enqueued p s (pick_cpu p s),
      sched_enqueue_free p s free,
      placed,
      subst (λ key. IsRunq key ((enqueued p s (pick_cpu p s)).runqs (pick_cpu p s)))
          (sym (ap key_of (pcbs-enqueued p s (pick_cpu p s)) ∙ key_of-ready p s (pick_cpu p s)))
          good,
      ap (λ (rq : Runq). rq.locked) (runqs-enqueued p s (pick_cpu p s)),
      ap (λ (q : Pcb). q.state)
          (ap (λ f. f p) (pcbs-enqueued p s (pick_cpu p s)) ∙ pcb-ready p s (pick_cpu p s)),
      fun_ext (λ k. others k),
    )
  where
    others :
        (k : ℕ)
        → (enqueued p s (pick_cpu p s)).runqs k
          ≡ update_at s.runqs (pick_cpu p s) ((enqueued p s (pick_cpu p s)).runqs (pick_cpu p s)) k
    others k = elim (Bool-cases (k == pick_cpu p s)) [
      | inl this ↦ rw (this, (==_iff k (pick_cpu p s)).0 this) refl
      | inr other ↦
          rw other (runqs-enqueued_ne p s (pick_cpu p s) k (λ e. same_ne k (pick_cpu p s) other e))
    ]
