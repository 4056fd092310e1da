-- ===== src/Ipc/Ring.antt =====
-- kernel/ipc/ringbuf.h: the ring buffer of slots that backs ports and synthetic files.
-- `__atomic` loads and stores are plain reads and writes, as one producer and one consumer see
-- them under the callers' locks. The data region is the list of its slots: a copy of at most
-- `slot_size` bytes at the start of a slot stays inside that slot.
pub mod Valid
pub mod Window
pub mod Refine
pub mod Batch
pub mod Reach
mod Tests
use open_asd.Prelude.{
  ℕ, zero, suc, ◌+◌, ◌-◌, ◌*◌, ◌%◌, ◌^◌, bit_and, Bool, not, ◌&&◌, Option, none, some, List, [],
  ◌++◌, Rc, ok, fail, ltb, leb, ◌==◌, set, get_or, take, drop, replicate, if◌then◌else◌,
}

-- A slot is its bytes.
abbrev pub Slot : Type 0
Slot = List ℕ

-- `ringbuf_t`, without its padding.
pub record Ring : Type 0 where
  pub magic : ℕ
  pub version : ℕ
  pub slot_size : ℕ
  pub slot_count : ℕ
  pub write_idx : ℕ
  pub read_idx : ℕ
  pub slots : List Slot

abbrev pub ringbuf_magic : ℕ
ringbuf_magic = 0x52494E4742554631

abbrev pub ringbuf_version : ℕ
ringbuf_version = 1

unfoldable pub is_pow2 : ℕ → Bool
is_pow2 n = not (n == 0) && (bit_and n (n - 1) == 0)

-- The size of the header is 64 bytes.
pub required_size : ℕ → ℕ → ℕ
required_size slot_size slot_count = (64 + slot_size * slot_count) % 2 ^ 64

-- What `ringbuf_init` writes.
unfoldable pub fresh : ℕ → ℕ → Ring
fresh slot_size slot_count = record {
  magic = ringbuf_magic;
  version = ringbuf_version;
  slot_size = slot_size;
  slot_count = slot_count;
  write_idx = 0;
  read_idx = 0;
  slots = replicate slot_count (replicate slot_size 0);
}

-- `none` is -1. `mem` says whether the pointer to the memory is not null; the memory is overwritten
-- whole.
unfoldable pub init : Bool → ℕ → ℕ → Option Ring
init mem slot_size slot_count =
    if not mem
    then none
    else if not (is_pow2 slot_size && leb 8 slot_size)
    then none
    else if not (is_pow2 slot_count && leb 2 slot_count)
    then none
    else some (fresh slot_size slot_count)

unfoldable pub valid : Ring → Bool
valid rb =
    (rb.magic == ringbuf_magic)
    && (rb.version == ringbuf_version)
    && (is_pow2 rb.slot_size && leb 8 rb.slot_size)
    && (is_pow2 rb.slot_count && leb 2 rb.slot_count)

-- `uint64_t` subtraction and increment.
abbrev pub sub64 : ℕ → ℕ → ℕ
sub64 a b = (a + 2 ^ 64 - b) % 2 ^ 64

abbrev pub add64 : ℕ → ℕ → ℕ
add64 a b = (a + b) % 2 ^ 64

-- The slot that an index stands for.
unfoldable pub slot_index : Ring → ℕ → ℕ
slot_index rb idx = bit_and idx (rb.slot_count - 1)

-- `memcpy(slot, src, size)`: the first `size` bytes of the slot change.
unfoldable pub copy_in : ℕ → List ℕ → Slot → Slot
copy_in size src slot = take size src ++ drop size slot

unfoldable pub write_slot : Ring → ℕ → List ℕ → ℕ → List Slot
write_slot rb idx src size =
    set rb.slots (slot_index rb idx) (copy_in size src (get_or rb.slots (slot_index rb idx) []))

unfoldable pub read_slot : Ring → ℕ → ℕ → List ℕ
read_slot rb idx size = take size (get_or rb.slots (slot_index rb idx) [])

unfoldable pub push : Ring → List ℕ → ℕ → Rc × Ring
push rb src size =
    if sub64 rb.write_idx rb.read_idx == rb.slot_count
    then (fail, rb)
    else if ltb rb.slot_size size
    then (fail, rb)
    else (
      ok,
      record rb { slots = write_slot rb rb.write_idx src size; write_idx = add64 rb.write_idx 1 },
    )

-- The list is what goes to `buf`; on an error nothing does.
unfoldable pub pop : Ring → ℕ → Rc × List ℕ × Ring
pop rb size =
    if rb.read_idx == rb.write_idx
    then (fail, [], rb)
    else if ltb rb.slot_size size
    then (fail, [], rb)
    else (ok, read_slot rb rb.read_idx size, record rb { read_idx = add64 rb.read_idx 1 })

-- `avail` in `uint32_t`.
abbrev pub used32 : Ring → ℕ
used32 rb = sub64 rb.write_idx rb.read_idx % 2 ^ 32

abbrev pub sub32 : ℕ → ℕ → ℕ
sub32 a b = (a + 2 ^ 32 - b) % 2 ^ 32

-- The loop of `ringbuf_push_batch` from item `i` on, with `k` items left; `src` begins at item `i`.
unfoldable pub push_loop : ℕ → ℕ → Ring → List ℕ → ℕ → Ring
push_loop zero i rb src size = rb
push_loop (suc k) i rb src size =
    push_loop k (i + 1) (record rb { slots = write_slot rb (add64 rb.write_idx i) src size })
      (drop size src) size

unfoldable pub push_batch : Ring → List ℕ → ℕ → ℕ → ℕ × Ring
push_batch rb items item_size n =
    let avail = sub32 rb.slot_count (used32 rb) in
    let n' = if ltb avail n then avail else n in
    if ltb rb.slot_size item_size
    then (0, rb)
    else let rb' = push_loop n' 0 rb items item_size in
      (n', record rb' { write_idx = add64 rb.write_idx n' })

-- The loop of `ringbuf_pop_batch`: the bytes that go to `buf`, in order.
unfoldable pub pop_loop : ℕ → ℕ → Ring → ℕ → List ℕ
pop_loop zero i rb size = []
pop_loop (suc k) i rb size = read_slot rb (add64 rb.read_idx i) size ++ pop_loop k (i + 1) rb size

unfoldable pub pop_batch : Ring → ℕ → ℕ → ℕ × List ℕ × Ring
pop_batch rb item_size n =
    let avail = used32 rb in
    let n' = if ltb avail n then avail else n in
    if ltb rb.slot_size item_size
    then (0, [], rb)
    else (n', pop_loop n' 0 rb item_size, record rb { read_idx = add64 rb.read_idx n' })

unfoldable pub used : Ring → ℕ
used rb = if ltb (used32 rb) rb.slot_count then used32 rb else rb.slot_count

unfoldable pub free : Ring → ℕ
unfolding used
free rb = sub32 rb.slot_count (used rb)

unfoldable pub is_empty : Ring → Bool
is_empty rb = rb.write_idx == rb.read_idx

unfoldable pub is_full : Ring → Bool
unfolding used
is_full rb = used rb == rb.slot_count
