-- ===== src/Ipc/Port/Tests.antt =====
-- A table of one slot.
use open_asd.Prelude.{ℕ, zero, suc, ◌+◌, ◌-◌, ◌≡◌, refl, ◌≢◌, some, List, [], ◌∷◌, arith, get_or}
use open_asd.Ipc.Port.{Port, null_port, port_find_by_id, port_open}
use open_asd.Ipc.Port.Handles.{IsValid, port_open_lem}

abbrev ports : List Port
ports = null_port ∷ []

ports-IsValid : IsValid ports
unfolding IsValid
ports-IsValid = (omega arith, unused)
  where
    unused : (i : ℕ) → (get_or ports i null_port).id ≢ 0 → (get_or ports i null_port).id ≡ i + 1
    unused zero h = absurd (h refl)
    unused (suc i) h = absurd (h refl)

port_open_lem_example :
    IsValid (port_open (some (97 ∷ [])) 1 3 ports).1
    × ((port_open (some (97 ∷ [])) 1 3 ports).0 ≢ 0
        → port_find_by_id
            (port_open (some (97 ∷ [])) 1 3 ports).0
            (port_open (some (97 ∷ [])) 1 3 ports).1
          ≡ some ((port_open (some (97 ∷ [])) 1 3 ports).0 - 1))
port_open_lem_example = port_open_lem (some (97 ∷ [])) 1 3 ports ports-IsValid
