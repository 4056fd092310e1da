-- ===== src/Ipc/Ring/Batch.antt =====
-- The batch calls of the ring buffer against the single ones, and the counting functions.
use open_asd.Prelude.{
  ℕ, zero, suc, ◌+◌, ◌-◌, ◌*◌, ◌^◌, ◌≤◌, ◌<◌, min, ◌≡◌, refl, sym, ap, ◌∙◌, ◌↔◌, true, false, List,
  [], ◌++◌, arith, Rc, ok, ltb, ◌==◌, length, drop, length-drop, if◌then◌else◌,
}
use native.Mathlib.Nat.{add-zero, le_trans, mul-le-mul_right, min-le_left}
use open_asd.Ipc.Ring.{
  Ring, sub64, add64, sub32, used32, slot_index, write_slot, read_slot, push, pop, push_loop,
  pop_loop, push_batch, pop_batch, used, free, is_empty, is_full,
}
use open_asd.Ipc.Ring.Valid.{IsValid, count_lt, push-IsValid}
use open_asd.Ipc.Ring.Window.{contents}
use open_asd.Ipc.Ring.Refine.{length-contents, push_ok, pushed}

-- `k` calls of `ringbuf_push`, one for each item.
pub push_each : ℕ → Ring → List ℕ → ℕ → Ring
push_each zero rb src size = rb
push_each (suc k) rb src size = push_each k (push rb src size).1 (drop size src) size

-- `k` calls of `ringbuf_pop`: the bytes in order, and the buffer.
pub pop_each : ℕ → Ring → ℕ → List ℕ × Ring
pop_each zero rb size = ([], rb)
pop_each (suc k) rb size =
    let (rc, bytes, rb') = pop rb size in
    let (more, rb'') = pop_each k rb' size in (bytes ++ more, rb'')

-- The counting functions agree with the messages held, and no count wraps.
pub used-eq-length :
    {rb : Ring}
    → IsValid rb
    → (used rb ≡ length (contents rb))
      × (free rb + length (contents rb) ≡ rb.slot_count)
      × ((is_full rb ≡ true) ↔ (length (contents rb) ≡ rb.slot_count))
      × ((is_empty rb ≡ true) ↔ (length (contents rb) ≡ 0))
unfolding used free is_full is_empty
used-eq-length {rb} v = rw (length-contents rb) (
  ground (arith, count_lt v),
  ground (arith, count_lt v),
  (λ h. ground (arith, count_lt v), λ h. ground (arith, count_lt v)),
  (λ h. ground (arith, count_lt v), λ h. ground (arith, count_lt v)),
)

-- The ring that the loop of `ringbuf_push_batch` has reached after `i` items.
abbrev at_write : Ring → ℕ → Ring
at_write rb i = record rb { write_idx = add64 rb.write_idx i }

-- The ring after the `i`-th round of the loop.
abbrev written : Ring → ℕ → List ℕ → ℕ → Ring
written rb i src size = record rb { slots = write_slot rb (add64 rb.write_idx i) src size }

pushed-at_write :
    (rb : Ring) (i : ℕ) (src : List ℕ) (size : ℕ)
    → pushed (at_write rb i) src size ≡ at_write (written rb i src size) (i + 1)
unfolding write_slot slot_index
pushed-at_write rb i src size =
    ap (λ (w : ℕ). record (written rb i src size) { write_idx = w }) (omega arith)

module _ (i : ℕ) (rb : Ring) (src : List ℕ) (size : ℕ) (v : IsValid (at_write rb i)) where
  push-at_write :
      sub64 (add64 rb.write_idx i) rb.read_idx < rb.slot_count
      → size ≤ rb.slot_size
      → (push (at_write rb i) src size).1 ≡ at_write (written rb i src size) (i + 1)
  push-at_write room fits =
      ap (λ (r : Rc × Ring). r.1) (push_ok v src size (omega arith) fits)
      ∙ pushed-at_write rb i src size

  written-IsValid :
      sub64 (add64 rb.write_idx i) rb.read_idx < rb.slot_count
      → size ≤ rb.slot_size
      → size ≤ length src
      → IsValid (at_write (written rb i src size) (i + 1))
  written-IsValid room fits long = rw (push-at_write room fits) at (push-IsValid src size v long)

push_loop-each :
    (k i : ℕ) (rb : Ring) (src : List ℕ) (size : ℕ)
    → IsValid (at_write rb i)
    → sub64 (add64 rb.write_idx i) rb.read_idx + k ≤ rb.slot_count
    → size ≤ rb.slot_size
    → k * size ≤ length src
    → at_write (push_loop k i rb src size) (i + k) ≡ push_each k (at_write rb i) src size
unfolding push_loop push_each
push_loop-each zero i rb src size v room fits long = ap (at_write rb) (add-zero i)
push_loop-each (suc k) i rb src size v room fits long =
    ap (at_write (push_loop k (i + 1) (written rb i src size) (drop size src) size)) (omega arith)
    ∙ push_loop-each k (i + 1) (written rb i src size) (drop size src) size
        (written-IsValid i rb src size v (omega arith) fits (omega arith))
        (omega (arith, count_lt v)) fits (omega (arith, length-drop size src))
    ∙ ap (λ r. push_each k r (drop size src) size)
        (sym (push-at_write i rb src size v (omega arith) fits))

-- The fields that the loop of `ringbuf_push_batch` leaves alone.
push_loop-write_idx :
    (k i : ℕ) (rb : Ring) (src : List ℕ) (size : ℕ)
    → (push_loop k i rb src size).write_idx ≡ rb.write_idx
unfolding push_loop
push_loop-write_idx zero i rb src size = refl
push_loop-write_idx (suc k) i rb src size =
    push_loop-write_idx k (i + 1) (written rb i src size) (drop size src) size

at_write-zero : (rb : Ring) → rb.write_idx < 2 ^ 64 → at_write rb 0 ≡ rb
at_write-zero rb h = ap (λ (w : ℕ). record rb { write_idx = w }) (omega arith)

push_loop-batch :
    (k : ℕ) {rb : Ring} (items : List ℕ) (size : ℕ)
    → IsValid rb
    → k ≤ rb.slot_count - sub64 rb.write_idx rb.read_idx
    → size ≤ rb.slot_size
    → k * size ≤ length items
    → record (push_loop k 0 rb items size) { write_idx = add64 rb.write_idx k }
      ≡ push_each k rb items size
push_loop-batch k {rb} items size v room fits long =
    ap (λ (w : ℕ). record (push_loop k 0 rb items size) { write_idx = w })
      (omega (arith, push_loop-write_idx k 0 rb items size))
    ∙ push_loop-each k 0 rb items size (rw (at_write-zero rb v.write_lt) v)
        (omega (arith, v.write_lt, v.held_le)) fits long
    ∙ ap (λ r. push_each k r items size) (at_write-zero rb v.write_lt)

-- `ringbuf_push_batch` of items that fit a slot pushes as many items as there is room for, or all
-- of them: its result is that of so many calls of `ringbuf_push`, one for each item in order.
pub push_batch-eq-push_each :
    {rb : Ring} (items : List ℕ) (item_size n : ℕ)
    → IsValid rb
    → item_size ≤ rb.slot_size
    → n * item_size ≤ length items
    → let k = min n (free rb) in
      push_batch rb items item_size n ≡ (k, push_each k rb items item_size)
unfolding push_batch free used
push_batch-eq-push_each {rb} items item_size n v fits long =
    rw (size_ok, count)
      (ap (λ (r : Ring). (min n (free rb), r))
        (push_loop-batch (min n (free rb)) items item_size v (ground (arith, count_lt v)) fits
          enough))
  where
    size_ok : ltb rb.slot_size item_size ≡ false
    size_ok = ground arith

    count :
        (if ltb (sub32 rb.slot_count (used32 rb)) n then sub32 rb.slot_count (used32 rb) else n)
        ≡ min n (free rb)
    count = ground (arith, count_lt v)

    enough : min n (free rb) * item_size ≤ length items
    enough = le_trans (mul-le-mul_right item_size (min-le_left n (free rb))) long

pop-at :
    (rb : Ring) (i size : ℕ)
    → 0 < sub64 rb.write_idx (add64 rb.read_idx i)
    → rb.write_idx < 2 ^ 64
    → size ≤ rb.slot_size
    → pop (record rb { read_idx = add64 rb.read_idx i }) size ≡ (
      ok,
      read_slot rb (add64 rb.read_idx i) size,
      record rb { read_idx = add64 rb.read_idx (i + 1) },
    )
unfolding pop read_slot slot_index
pop-at rb i size h w fits =
    rw (held, size_ok)
      (ap (λ (r : ℕ). (ok, read_slot rb (add64 rb.read_idx i) size, record rb { read_idx = r }))
        (omega arith))
  where
    held : (add64 rb.read_idx i == rb.write_idx) ≡ false
    held = ground arith

    size_ok : ltb rb.slot_size size ≡ false
    size_ok = ground arith

pop_loop-each :
    (k i : ℕ) (rb : Ring) (size : ℕ)
    → k ≤ sub64 rb.write_idx (add64 rb.read_idx i)
    → rb.write_idx < 2 ^ 64
    → size ≤ rb.slot_size
    → pop_each k (record rb { read_idx = add64 rb.read_idx i }) size
      ≡ (pop_loop k i rb size, record rb { read_idx = add64 rb.read_idx (i + k) })
unfolding pop_loop pop_each
pop_loop-each zero i rb size h w fits =
    ap (λ (r : ℕ). ([], record rb { read_idx = add64 rb.read_idx r })) (omega arith)
pop_loop-each (suc k) i rb size h w fits =
    ap (λ (p : Rc × List ℕ × Ring). (p.1 ++ (pop_each k p.2 size).0, (pop_each k p.2 size).1)) one
    ∙ ap (λ (p : List ℕ × Ring). (read_slot rb (add64 rb.read_idx i) size ++ p.0, p.1))
        (pop_loop-each k (i + 1) rb size (omega arith) w fits)
    ∙ ap
        (λ (r : ℕ). (
          read_slot rb (add64 rb.read_idx i) size ++ pop_loop k (i + 1) rb size,
          record rb { read_idx = add64 rb.read_idx r },
        ))
        (omega arith)
  where
    one : pop (record rb { read_idx = add64 rb.read_idx i }) size ≡ (
      ok,
      read_slot rb (add64 rb.read_idx i) size,
      record rb { read_idx = add64 rb.read_idx (i + 1) },
    )
    one = pop-at rb i size (omega arith) w fits

-- `ringbuf_pop_batch` of items that fit a slot pops as many items as there are, or all that are
-- asked for: its result is that of so many calls of `ringbuf_pop`.
pub pop_batch-eq-pop_each :
    {rb : Ring} (item_size n : ℕ)
    → IsValid rb
    → item_size ≤ rb.slot_size
    → pop_batch rb item_size n ≡ (
        let k = min n (used rb) in
        let (bytes, rb') = pop_each k rb item_size in
        let r : ℕ × List ℕ × Ring = (k, bytes, rb') in r)
unfolding pop_batch used
pop_batch-eq-pop_each {rb} item_size n v fits =
    rw (size_ok, count)
      (ap
          (λ (k : ℕ). (
            min n (used rb),
            pop_loop (min n (used rb)) 0 rb item_size,
            record rb { read_idx = add64 rb.read_idx k },
          ))
          first
        ∙ ap (λ (p : List ℕ × Ring). (min n (used rb), p.0, p.1))
            (sym (
              ap (λ (r : ℕ). pop_each (min n (used rb)) (record rb { read_idx = r }) item_size)
                (omega (arith, v.read_lt))
              ∙ pop_loop-each (min n (used rb)) 0 rb item_size (ground (arith, count_lt v))
                  v.write_lt fits)))
  where
    size_ok : ltb rb.slot_size item_size ≡ false
    size_ok = ground arith

    count : (if ltb (used32 rb) n then used32 rb else n) ≡ min n (used rb)
    count = ground (arith, count_lt v)

    first : min n (used rb) ≡ 0 + min n (used rb)
    first = omega arith
