-- ===== src/Ipc/Ring/Reach.antt =====
-- The ring buffers that a program of kernel/ipc/ringbuf.h can get to.
use open_asd.Prelude.{ℕ, ◌^◌, ◌≤◌, ◌<◌, ◌≡◌, Bool, some, List, length}
use open_asd.Ipc.Ring.{Ring, init, push, pop}
use open_asd.Ipc.Ring.Valid.{IsValid, init-IsValid, push-IsValid, pop-IsValid}

-- By `ringbuf_init`, and then by pushes of bytes that are there and pops, in any order.
pub data Reachable : Ring → Type 0 where
  initialised :
      (mem : Bool) (slot_size slot_count : ℕ) (rb : Ring)
      → slot_count < 2 ^ 32
      → init mem slot_size slot_count ≡ some rb
      → Reachable rb
  pushed :
      (rb : Ring) (src : List ℕ) (size : ℕ)
      → size ≤ length src
      → Reachable rb
      → Reachable (push rb src size).1
  popped : (rb : Ring) (size : ℕ) → Reachable rb → Reachable (pop rb size).2

-- In every state that `ringbuf_init` with less than 2^32 slots, pushes and pops lead to, the number of
-- slots is a power of 2, there are as many slots, each of the slot size, and at most as many messages as
-- slots are held.
pub buffer-IsValid : (rb : Ring) → Reachable rb → IsValid rb
buffer-IsValid rb (initialised mem slot_size slot_count r few e) =
    (init-IsValid mem slot_size slot_count few e).0
buffer-IsValid rb (pushed r src size l past) = push-IsValid src size (buffer-IsValid r past) l
buffer-IsValid rb (popped r size past) = pop-IsValid size (buffer-IsValid r past)
