-- ===== src/Ipc/Port/Messages.antt =====
-- `port_send` and `port_recv` of kernel/ipc/port.c. `heap` holds the buffers of messages that do not fit a
-- slot, by their address; `msg` is the memory from the message on. A port in use has a ring buffer.
mod Tests
use open_asd.Prelude.{
  ℕ, zero, suc, ◌+◌, ◌-◌, ◌%◌, ◌^◌, min, ◌||◌, Option, none, some, List, [], ◌++◌, Rc, ok, fail,
  ltb, leb, ◌==◌, length, set, get_or, take, drop, replicate, if◌then◌else◌,
}
use open_asd.Prelude.Bytes.{le, get_le}
use open_asd.Ipc.Ring.{Ring, push, pop}
use open_asd.Ipc.Port.{Port, null_port, port_find_by_id}

abbrev pub port_msg_max : ℕ
port_msg_max = 4096

abbrev pub port_inline_max : ℕ
port_inline_max = 56

-- The size of `msg_hdr_t`, and of `port_slot_t`.
abbrev pub hdr_size : ℕ
hdr_size = 8

abbrev pub slot_bytes_size : ℕ
slot_bytes_size = 64

pub record Messages : Type 0 where
  pub ports : List Port
  pub heap : ℕ → List ℕ

abbrev pub set_heap : ℕ → List ℕ → Messages → Messages
set_heap ptr bytes s = record s { heap = λ p. if p == ptr then bytes else s.heap p }

-- `port_slot_t`: the header, and the payload over 56 zeros.
abbrev pub slot_bytes : ℕ → ℕ → List ℕ → List ℕ
slot_bytes msg_type len payload =
    le 4 msg_type ++ (le 4 len ++ (payload ++ replicate (port_inline_max - length payload) 0))

-- "Inline path": the length in the header is that of the whole message.
unfoldable pub inline_slot : List ℕ → ℕ → List ℕ
inline_slot msg len =
    slot_bytes (get_le 4 msg) len
      (take (min ((len + 2 ^ 64 - hdr_size) % 2 ^ 64) port_inline_max) (drop hdr_size msg))

unfoldable pub pointer_slot : ℕ → List ℕ → ℕ → List ℕ
pointer_slot ptr msg len = slot_bytes (get_le 4 msg) len (le 8 ptr)

-- "Spin-retry on full queue (bounded)"
unfoldable pub push_tries : ℕ → Ring → List ℕ → Rc × Ring
push_tries zero rb slot = (fail, rb)
push_tries (suc n) rb slot =
    let (rc, rb1) = push rb slot slot_bytes_size in
    elim rc [ ok ↦ (ok, rb1) | fail ↦ push_tries n rb1 slot ]

-- The result, and the process that is woken.
abbrev pub Sent : Type 0
Sent = Rc × Option ℕ × Messages

abbrev pub set_port : ℕ → Port → Messages → Messages
set_port i p s = record s { ports = set s.ports i p }

-- Into the ring buffer of the port at an index; the buffer of a message that finds no room is not freed.
unfoldable pub push_slot : ℕ → List ℕ → Messages → Sent
push_slot i slot s =
    let p = get_or s.ports i null_port in
    elim p.ring [
      | none ↦ (fail, none, s)
      | some rb ↦
          let (rc, rb1) = push_tries 1000 rb slot in
          elim rc [
            | ok ↦ (ok, p.waiter, set_port i (record p { ring = some rb1; waiter = none }) s)
            | fail ↦ (fail, none, s)
          ]
    ]

unfoldable pub send_to : (ℕ → Option ℕ) → ℕ → List ℕ → ℕ → Messages → Sent
send_to kmalloc i msg len s =
    if leb len port_inline_max then push_slot i (inline_slot msg len) s else elim (kmalloc len) [
      | none ↦ (fail, none, s)
      | some ptr ↦ push_slot i (pointer_slot ptr msg len) (set_heap ptr (take len msg) s)
    ]

unfoldable pub port_send : (ℕ → Option ℕ) → ℕ → List ℕ → ℕ → Messages → Sent
port_send kmalloc id msg len s =
    if (len == 0) || ltb port_msg_max len
    then (fail, none, s)
    else elim (port_find_by_id id s.ports) [
      | none ↦ (fail, none, s)
      | some i ↦ send_to kmalloc i msg len s
    ]

-- A receiver that waits calls again when it is woken.
pub data Received : Type 0 where
  refused : Received
  blocked : Messages → Received
  received : List ℕ → ℕ → Messages → Received

-- The bytes that go to the caller's buffer of `cap` bytes, and `*len_out`.
unfoldable pub unpack : List ℕ → ℕ → Messages → Received
unpack slot cap s =
    let len = get_le 4 (drop 4 slot) in
    let ptr = get_le 8 (drop hdr_size slot) in
    if leb len port_inline_max
    then received
        (take 4 slot ++ (le 4 len ++ take (min len (cap - hdr_size)) (drop hdr_size slot)))
        (hdr_size + min len (cap - hdr_size)) s
    else received (take (min len cap) (s.heap ptr)) (min len cap) (set_heap ptr [] s)

-- `cur` is the process that calls.
unfoldable pub recv_from : ℕ → ℕ → ℕ → Messages → Received
recv_from cur i cap s =
    let p = get_or s.ports i null_port in
    elim p.ring [
      | none ↦ refused
      | some rb ↦
          let (rc, slot, rb1) = pop rb slot_bytes_size in
          elim rc [
            | ok ↦ unpack slot cap (set_port i (record p { ring = some rb1 }) s)
            | fail ↦ blocked (set_port i (record p { waiter = some cur }) s)
          ]
    ]

unfoldable pub port_recv : ℕ → ℕ → ℕ → Messages → Received
port_recv cur id cap s =
    if ltb cap slot_bytes_size
    then refused
    else elim (port_find_by_id id s.ports) [ none ↦ refused | some i ↦ recv_from cur i cap s ]
