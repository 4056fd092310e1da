-- ===== src/Ipc/Ring/Tests.antt =====
-- Runs of the ring buffer, and its theorems at concrete buffers.
use open_asd.Prelude.{
  ℕ, ◌-◌, ◌^◌, ◌≤◌, min, ◌≡◌, refl, ◌↔◌, true, false, none, some, List, [], ◌∷◌, ◌++◌, arith, Rc,
  ok,
}
use open_asd.Ipc.Queue
use open_asd.Ipc.Ring.{
  Ring, ringbuf_magic, is_pow2, fresh, init, push, pop, push_batch, pop_batch, write_slot,
  slot_index, copy_in, used, free,
}
use open_asd.Ipc.Ring.Valid.{IsValid, is_pow2_iff, init-eq-some_iff}
use open_asd.Ipc.Ring.Window.{contents}
use open_asd.Ipc.Ring.Reach.{initialised, pushed, popped, buffer-IsValid}
use open_asd.Ipc.Ring.Refine.{push_refines, pop_refines}
use open_asd.Ipc.Ring.Batch.{push_each, pop_each, push_batch-eq-push_each, pop_batch-eq-pop_each}

abbrev first : List ℕ
first = 1 ∷ 2 ∷ 3 ∷ 4 ∷ 5 ∷ 6 ∷ 7 ∷ 8 ∷ []

abbrev second : List ℕ
second = 9 ∷ 8 ∷ 7 ∷ 6 ∷ 5 ∷ 4 ∷ 3 ∷ 2 ∷ []

-- Two slots of 8 bytes; the indices are about to wrap, and one message is held.
abbrev wrapping : Ring
wrapping = record {
  magic = ringbuf_magic;
  version = 1;
  slot_size = 8;
  slot_count = 2;
  write_idx = 2 ^ 64 - 1;
  read_idx = 2 ^ 64 - 2;
  slots = first ∷ second ∷ [];
}

wrapping-IsValid : IsValid wrapping
wrapping-IsValid = record {
  order = 1;
  order_lt = omega arith;
  count_pow = refl;
  length_slots = refl;
  sized = (refl, (refl, tt));
  write_lt = omega arith;
  read_lt = omega arith;
  held_le = omega arith;
}

contents-wrapping : contents wrapping ≡ first ∷ []
contents-wrapping = refl

refused : (init true 12 4 ≡ none) × (init true 16 3 ≡ none) × (init false 16 4 ≡ none)
unfolding init is_pow2
refused = (refl, refl, refl)

contents-push : contents (push wrapping second 8).1 ≡ first ∷ second ∷ []
unfolding push write_slot slot_index copy_in
contents-push = refl

is_pow2_iff_example : (is_pow2 64 ≡ true) ↔ ((k : ℕ) × (64 ≡ 2 ^ k))
is_pow2_iff_example = is_pow2_iff 64

init-eq-some_iff_example :
    (init true 64 64 ≡ some (fresh 64 64))
    ↔ ((true ≡ true) × ((j : ℕ) × (64 ≡ 2 ^ j)) × (8 ≤ 64) × ((k : ℕ) × (64 ≡ 2 ^ k)) × (2 ≤ 64))
init-eq-some_iff_example = init-eq-some_iff true 64 64

push_refines_example :
    (let (rc, rb) = push wrapping second 8 in let r : Rc × List (List ℕ) = (rc, contents rb) in r)
    ≡ Queue.push 2 8 (first ∷ []) second
push_refines_example = push_refines second wrapping-IsValid (omega arith)

pop_refines_example :
    (let (rc, bytes, rb) = pop wrapping 3 in
      let r : Rc × List ℕ × List (List ℕ) = (rc, bytes, contents rb) in r)
    ≡ (ok, 1 ∷ 2 ∷ 3 ∷ [], [])
unfolding Queue.pop
pop_refines_example = pop_refines 3 wrapping-IsValid

push_batch-eq-push_each_example :
    push_batch wrapping (first ++ second) 8 2
    ≡ (min 2 (free wrapping), push_each (min 2 (free wrapping)) wrapping (first ++ second) 8)
push_batch-eq-push_each_example =
    push_batch-eq-push_each (first ++ second) 8 2 wrapping-IsValid (omega arith) (omega arith)

pop_batch-eq-pop_each_example : pop_batch wrapping 8 2 ≡ (
    let k = min 2 (used wrapping) in
    let (bytes, rb) = pop_each k wrapping 8 in let r : ℕ × List ℕ × Ring = (k, bytes, rb) in r)
pop_batch-eq-pop_each_example = pop_batch-eq-pop_each 8 2 wrapping-IsValid (omega arith)

abbrev small : Ring
small = fresh 8 2

buffer-IsValid_example : IsValid (pop (push small second 8).1 8).2
unfolding init is_pow2 fresh
buffer-IsValid_example = buffer-IsValid (pop (push small second 8).1 8).2 (
    popped (push small second 8).1 8
      (pushed small second 8 (omega arith) (initialised true 8 2 small (omega arith) refl)))
