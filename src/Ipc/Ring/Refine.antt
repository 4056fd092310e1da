-- ===== src/Ipc/Ring/Refine.antt =====
-- A valid ring buffer behaves as the queue of the messages that it holds.
use open_asd.Prelude.{
  ℕ, zero, suc, ◌+◌, ◌-◌, ◌%◌, ◌^◌, ◌≤◌, ◌<◌, ◌≡◌, refl, sym, ap, ◌∙◌, ◌≢◌, inl, inr, true, false,
  List, [], ◌∷◌, ◌++◌, arith, Rc, ok, fail, ltb, ◌==◌, Bool-cases, length, set, get_or, take, drop,
  take_all,
}
use mathlib.Core.List.{append-nil}
use mathlib.Core.Path.{ap₂}
use open_asd.Ipc.Queue
use open_asd.Ipc.Ring.{Ring, sub64, add64, slot_index, copy_in, write_slot, read_slot, push, pop}
use open_asd.Ipc.Ring.Valid.{
  IsValid, slot_index-eq-mod, mod_wrap, count_lt, slot_index-lt, AllSized-get_or,
}
use open_asd.Prelude.Window.{window, window-mod, window-set, window_of_pos, length-window}
use open_asd.Ipc.Ring.Window.{contents}

drop_all : (xs : List ℕ) (n : ℕ) → length xs ≤ n → drop n xs ≡ []
drop_all [] zero h = refl
drop_all [] (suc n) h = refl
drop_all (x ∷ xs) zero h = absurd (omega arith)
drop_all (x ∷ xs) (suc n) h = drop_all xs n (omega arith)

-- A message as long as the slot replaces it.
filled : (src slot : List ℕ) → length slot ≤ length src → copy_in (length src) src slot ≡ src
unfolding copy_in
filled src slot h =
    ap₂ ◌++◌ (take_all (length src) src (omega arith)) (drop_all slot (length src) h)
    ∙ append-nil src

pub length-contents : (rb : Ring) → length (contents rb) ≡ sub64 rb.write_idx rb.read_idx
length-contents rb = length-window rb.slots [] rb.slot_count rb.read_idx _

-- The slot that a push of `size` bytes writes.
abbrev pub stored : Ring → List ℕ → ℕ → List ℕ
stored rb src size = copy_in size src (get_or rb.slots (slot_index rb rb.write_idx) [])

-- The buffer after such a push.
abbrev pub pushed : Ring → List ℕ → ℕ → Ring
pushed rb src size = record rb {
  slots = write_slot rb rb.write_idx src size;
  write_idx = add64 rb.write_idx 1;
}

module _ {rb : Ring} (v : IsValid rb) where
  -- The slot to write is the one behind the window.
  pub tail_index :
      slot_index rb rb.write_idx ≡ (rb.read_idx + sub64 rb.write_idx rb.read_idx) % rb.slot_count
  tail_index =
      slot_index-eq-mod v rb.write_idx
      ∙ ap (λ k. k % rb.slot_count) wrapped
      ∙ mod_wrap v (rb.read_idx + sub64 rb.write_idx rb.read_idx)
    where
      wrapped : rb.write_idx ≡ (rb.read_idx + sub64 rb.write_idx rb.read_idx) % 2 ^ 64
      wrapped = omega arith

  contents-write :
      (src : List ℕ) (size : ℕ)
      → sub64 rb.write_idx rb.read_idx ≢ rb.slot_count
      → window
          (write_slot rb rb.write_idx src size)
          []
          rb.slot_count
          rb.read_idx
          (suc (sub64 rb.write_idx rb.read_idx))
        ≡ contents rb ++ (stored rb src size ∷ [])
  unfolding write_slot
  contents-write src size room =
      ap (λ k. window (set rb.slots k (stored rb src size)) [] rb.slot_count rb.read_idx (suc u))
        tail_index
      ∙ window-set rb.slots [] rb.slot_count v.length_slots rb.read_idx u (stored rb src size)
          (omega arith)
    where
      u : ℕ
      u = sub64 rb.write_idx rb.read_idx

  room_lt :
      sub64 rb.write_idx rb.read_idx ≢ rb.slot_count
      → (sub64 rb.write_idx rb.read_idx == rb.slot_count) ≡ false
  room_lt room = ground arith

  pub push_ok :
      (src : List ℕ) (size : ℕ)
      → sub64 rb.write_idx rb.read_idx ≢ rb.slot_count
      → size ≤ rb.slot_size
      → push rb src size ≡ (ok, pushed rb src size)
  unfolding push
  push_ok src size room fits = rw (room_lt room, size_ok) refl
    where
      size_ok : ltb rb.slot_size size ≡ false
      size_ok = ground arith

  -- A push that finds room for a message that fits appends the slot that it writes.
  pub contents-pushed :
      (src : List ℕ) (size : ℕ)
      → sub64 rb.write_idx rb.read_idx ≢ rb.slot_count
      → contents (pushed rb src size) ≡ contents rb ++ (stored rb src size ∷ [])
  contents-pushed src size room =
      ap (window (write_slot rb rb.write_idx src size) [] rb.slot_count rb.read_idx) grown
      ∙ contents-write src size room
    where
      grown : sub64 (add64 rb.write_idx 1) rb.read_idx ≡ suc (sub64 rb.write_idx rb.read_idx)
      grown = omega (arith, count_lt v)

-- `ringbuf_push` of a message that fills a slot, or is too long for one, returns the status of the
-- bounded queue, and leaves the buffer holding the queue's messages, also when the indices wrap.
pub push_refines :
    {rb : Ring} (src : List ℕ)
    → IsValid rb
    → rb.slot_size ≤ length src
    → (let (rc, rb') = push rb src (length src) in
        let r : Rc × List (List ℕ) = (rc, contents rb') in r)
      ≡ Queue.push rb.slot_count rb.slot_size (contents rb) src
unfolding push Queue.push
push_refines {rb} src v long = elim (Bool-cases (sub64 rb.write_idx rb.read_idx == rb.slot_count)) [
  | inl full ↦ rw (length-contents rb, full) refl
  | inr room ↦ elim (Bool-cases (ltb rb.slot_size (length src))) [
    | inl big ↦ rw (length-contents rb, room, big) refl
    | inr fits ↦
        rw (length-contents rb, room, fits)
          (ap (λ (q : List (List ℕ)). (ok, q))
            (contents-pushed v src (length src) (ground arith)
              ∙ ap (λ s. contents rb ++ (s ∷ [])) (whole (ground arith))))
  ]
]
  where
    old_length : length (get_or rb.slots (slot_index rb rb.write_idx) []) ≡ rb.slot_size
    old_length =
        AllSized-get_or rb.slot_size (slot_index rb rb.write_idx) rb.slots v.sized
          (slot_index-lt v rb.write_idx)

    whole : length src ≤ rb.slot_size → stored rb src (length src) ≡ src
    whole fits =
        filled src (get_or rb.slots (slot_index rb rb.write_idx) []) (omega (arith, old_length))

pop_big :
    (slot_size size : ℕ) (m : List ℕ) (q : List (List ℕ))
    → ltb slot_size size ≡ true
    → Queue.pop slot_size size (m ∷ q) ≡ (fail, [], m ∷ q)
unfolding Queue.pop
pop_big slot_size size m q e = rw e refl

pop_fits :
    (slot_size size : ℕ) (m : List ℕ) (q : List (List ℕ))
    → ltb slot_size size ≡ false
    → Queue.pop slot_size size (m ∷ q) ≡ (ok, take size m, q)
unfolding Queue.pop
pop_fits slot_size size m q e = rw e refl

-- `ringbuf_pop` of any size returns the status of the queue and the first `size` bytes of its oldest
-- message, and leaves the buffer holding the rest, also when the indices wrap at 2 ^ 64; when the
-- queue is empty or `size` is larger than a slot, it fails, gives no bytes and keeps every message.
pub pop_refines :
    {rb : Ring} (size : ℕ)
    → IsValid rb
    → (let (rc, bytes, rb') = pop rb size in
        let r : Rc × List ℕ × List (List ℕ) = (rc, bytes, contents rb') in r)
      ≡ Queue.pop rb.slot_size size (contents rb)
unfolding pop Queue.pop read_slot
pop_refines {rb} size v = elim (Bool-cases (rb.read_idx == rb.write_idx)) [
  | inl empty ↦ rw (empty, none_held empty) refl
  | inr held ↦ elim (Bool-cases (ltb rb.slot_size size)) [
    | inl big ↦
        rw (held, big, window_of_pos rb.slots [] rb.slot_count rb.read_idx u (some_held held))
          (sym (pop_big rb.slot_size size _ _ big))
    | inr fits ↦
        rw
          (
            held,
            fits,
            window_of_pos rb.slots [] rb.slot_count rb.read_idx u (some_held held),
            slot_index-eq-mod v rb.read_idx,
          )
          (ap
              (λ (q : List (List ℕ)).
                (ok, take size (get_or rb.slots (rb.read_idx % rb.slot_count) []), q))
              (rest held)
            ∙ sym (pop_fits rb.slot_size size _ _ fits))
  ]
]
  where
    u : ℕ
    u = sub64 rb.write_idx rb.read_idx

    none_held : (rb.read_idx == rb.write_idx) ≡ true → sub64 rb.write_idx rb.read_idx ≡ 0
    none_held h = ground arith

    some_held : (rb.read_idx == rb.write_idx) ≡ false → 0 < u
    some_held h = ground arith

    rest :
        (rb.read_idx == rb.write_idx) ≡ false
        → window rb.slots [] rb.slot_count
            (add64 rb.read_idx 1)
            (sub64 rb.write_idx (add64 rb.read_idx 1))
          ≡ window rb.slots [] rb.slot_count (rb.read_idx + 1) (u - 1)
    rest h =
        ap (window rb.slots [] rb.slot_count (add64 rb.read_idx 1)) (ground arith)
        ∙ window-mod rb.slots [] rb.slot_count (add64 rb.read_idx 1) (rb.read_idx + 1) (u - 1)
            (mod_wrap v (rb.read_idx + 1))
