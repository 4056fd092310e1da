-- ===== src/Ipc/Queue.antt =====
-- What a ring buffer promises: a first-in first-out queue of at most `cap` messages.
use open_asd.Prelude.{ℕ, List, [], ◌∷◌, ◌++◌, Rc, ok, fail, ltb, ◌==◌, length, take, if◌then◌else◌}

abbrev pub Queue : Type 0
Queue = List (List ℕ)

module _ (cap : ℕ) where
  -- A message is refused when the queue is full or when it is too long for a slot.
  unfoldable pub push : ℕ → Queue → List ℕ → Rc × Queue
  push slot_size q m =
      if length q == cap
      then (fail, q)
      else if ltb slot_size (length m)
      then (fail, q)
      else (ok, q ++ (m ∷ []))

-- The first `size` bytes of the oldest message. Nothing is taken when more than a slot is asked for.
unfoldable pub pop : ℕ → ℕ → Queue → Rc × List ℕ × Queue
pop slot_size size [] = (fail, [], [])
pop slot_size size (m ∷ q) = if ltb slot_size size then (fail, [], m ∷ q) else (ok, take size m, q)
