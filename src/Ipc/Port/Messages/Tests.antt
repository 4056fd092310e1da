-- ===== src/Ipc/Port/Messages/Tests.antt =====
-- A message is sent and received, within a slot and out of it, over a table of one port.
use open_asd.Prelude.{
  ℕ, ◌≡◌, refl, true, Option, none, some, List, [], ◌∷◌, length, take, replicate,
}
use open_asd.Ipc.Ring.{push, pop, init, is_pow2, fresh, read_slot, write_slot, slot_index, copy_in}
use open_asd.Ipc.Port.{null_port, port_find_by_id}
use open_asd.Ipc.Port.Messages.{
  Messages, Sent, Received, refused, blocked, received, inline_slot, pointer_slot, push_tries,
  push_slot, send_to, port_send, unpack, recv_from, port_recv,
}

abbrev empty : Messages
empty = record {
  ports = record null_port { id = 1; refcount = 1; ring = init true 64 64; waiter = some 5 } ∷ [];
  heap = λ p. [];
}

abbrev short : List ℕ
short = 3 ∷ 0 ∷ 0 ∷ 0 ∷ 10 ∷ 0 ∷ 0 ∷ 0 ∷ 65 ∷ 66 ∷ []

abbrev sent : List ℕ → Sent
sent msg = port_send (λ n. some 4096) 1 msg (length msg) empty

abbrev bytes : Received → Option (List ℕ)
bytes refused = none
bytes (blocked s) = none
bytes (received b n s) = some (take n b)

wakes : (sent short).1 ≡ some 5
unfolding port_send send_to inline_slot push_slot push_tries push port_find_by_id init is_pow2 fresh
wakes = refl

-- The two bytes of the payload and what follows them in the slot.
round :
    bytes (port_recv 7 1 64 (sent short).2)
    ≡ some (3 ∷ 0 ∷ 0 ∷ 0 ∷ 10 ∷ 0 ∷ 0 ∷ 0 ∷ 65 ∷ 66 ∷ replicate 8 0)
unfolding port_send send_to inline_slot push_slot push_tries push pop port_find_by_id port_recv
    recv_from unpack init is_pow2 fresh read_slot write_slot slot_index copy_in
round = refl

round_far : bytes (port_recv 7 1 64 (sent (replicate 60 9)).2) ≡ some (replicate 60 9)
unfolding port_send send_to pointer_slot push_slot push_tries push pop port_find_by_id port_recv
    recv_from unpack init is_pow2 fresh read_slot write_slot slot_index copy_in
round_far = refl

waits : bytes (port_recv 7 1 64 empty) ≡ none
unfolding pop port_find_by_id port_recv recv_from init is_pow2 fresh
waits = refl
