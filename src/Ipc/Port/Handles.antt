-- ===== src/Ipc/Port/Handles.antt =====
-- Handles of kernel/ipc/port.c: a port in use has the handle of its slot.
use open_asd.Prelude.{
  ℕ, ◌+◌, ◌-◌, ◌≤◌, ◌<◌, ◌≡◌, refl, sym, ap, ◌∙◌, ◌≢◌, inl, inr, Bool, true, false, not, ◌&&◌,
  Option, none, some, List, arith, ltb, ◌==◌, ==_iff, str_eq, Bool-cases, length, set, length-set,
  get_or, take, if◌then◌else◌,
}
use open_asd.Prelude.Find.{find_index-some}
use open_asd.Prelude.Window.{get_or-set_self, get_or-set_ne}
use open_asd.Ipc.Port.{
  Port, null_port, max_ports, port_name_len, set_refs, attach, create, open_or_create,
  port_find_by_name, port_find_by_id, port_open,
}

-- The table has at most 1024 slots, and the id in a slot is 0 or the number of the slot, from 1.
unfoldable pub IsValid : List Port → Type 0
IsValid ports =
    (length ports ≤ max_ports)
    × ((i : ℕ) → (get_or ports i null_port).id ≢ 0 → (get_or ports i null_port).id ≡ i + 1)

IsValid-set :
    (ports : List Port) (i : ℕ) (p : Port)
    → i < length ports
    → IsValid ports
    → (p.id ≢ 0 → p.id ≡ i + 1)
    → IsValid (set ports i p)
unfolding IsValid
IsValid-set ports i p low v ok_id = (omega (arith, length-set ports i p, v.0), go)
  where
    go :
        (j : ℕ)
        → (get_or (set ports i p) j null_port).id ≢ 0
        → (get_or (set ports i p) j null_port).id ≡ j + 1
    go j = elim (Bool-cases (i == j)) [
      | inl same ↦ rw (sym ((==_iff i j).0 same), get_or-set_self ports i p null_port low) ok_id
      | inr differ ↦ rw (get_or-set_ne ports i j p null_port (λ e. ne differ e)) (v.1 j)
    ]
      where
        ne : (i == j) ≡ false → i ≢ j
        ne h = ground arith

port_find_by_id-set :
    (ports : List Port) (i : ℕ) (p : Port)
    → i < length ports
    → length ports ≤ max_ports
    → p.id ≡ i + 1
    → port_find_by_id p.id (set ports i p) ≡ some i
unfolding port_find_by_id
port_find_by_id-set ports i p low few e =
    rw (nonzero, in_range, index, get_or-set_self ports i p null_port low, same) refl
  where
    nonzero : (p.id == 0) ≡ false
    nonzero = ground arith

    in_range : ltb max_ports p.id ≡ false
    in_range = ground arith

    index : p.id - 1 ≡ i
    index = omega arith

    same : (p.id == p.id) ≡ true
    same = ground arith

-- What an open returns: a valid table in which the handle is found.
Good : ℕ × List Port → Type 0
Good r = IsValid r.1 × (r.0 ≢ 0 → port_find_by_id r.0 r.1 ≡ some (r.0 - 1))

Good-failed : (ports : List Port) → IsValid ports → Good (0, ports)
unfolding Good
Good-failed ports v = (v, λ h. absurd (h refl))

Good-if : (b : Bool) (x y : ℕ × List Port) → Good x → Good y → Good (if b then x else y)
Good-if true x y p q = p
Good-if false x y p q = q

Good-set :
    (ports : List Port) (i : ℕ) (p : Port)
    → i < length ports
    → IsValid ports
    → p.id ≡ i + 1
    → Good (p.id, set ports i p)
unfolding Good IsValid
Good-set ports i p low v e = (
  IsValid-set ports i p low v (λ h. e),
  λ h. port_find_by_id-set ports i p low v.0 e ∙ ap some (omega arith),
)

create-Good :
    (o : Option ℕ) (name : List ℕ) (caller : ℕ) (ports : List Port)
    → ((i : ℕ) → o ≡ some i → i < length ports)
    → IsValid ports
    → Good (create o name caller ports)
unfolding create
create-Good none name caller ports low v = Good-failed ports v
create-Good (some i) name caller ports low v = Good-set ports i _ (low i refl) v refl

attach-Good :
    (i flags : ℕ) (ports : List Port)
    → i < length ports
    → (get_or ports i null_port).id ≢ 0
    → IsValid ports
    → Good (attach i flags ports)
unfolding attach IsValid
attach-Good i flags ports low used v =
    Good-if _ _ _ (Good-failed ports v)
      (Good-set ports i (set_refs _ (get_or ports i null_port)) low v (v.1 i used))

open_or_create-Good :
    (o : Option ℕ) (name : List ℕ) (flags caller : ℕ) (ports : List Port)
    → ((i : ℕ) → o ≡ some i → (i < length ports) × ((get_or ports i null_port).id ≢ 0))
    → IsValid ports
    → Good (open_or_create o name flags caller ports)
unfolding open_or_create
open_or_create-Good (some i) name flags caller ports found v =
    attach-Good i flags ports (found i refl).0 (found i refl).1 v
open_or_create-Good none name flags caller ports found v = Good-if _ _ _ (Good-failed ports v) (
    create-Good _ name caller ports
      (λ i e. (find_index-some (λ p. p.id == 0) ports i null_port e).0) v)

-- `port_open` keeps the rule that a port in use has the handle of its slot, and a handle that it
-- returns, unless 0, is one that `port_find_by_id` finds in the new table.
pub port_open_lem :
    (name : Option (List ℕ)) (flags caller : ℕ) (ports : List Port)
    → IsValid ports
    → IsValid (port_open name flags caller ports).1
      × ((port_open name flags caller ports).0 ≢ 0
          → port_find_by_id
              (port_open name flags caller ports).0
              (port_open name flags caller ports).1
            ≡ some ((port_open name flags caller ports).0 - 1))
unfolding port_open Good port_find_by_name
port_open_lem none flags caller ports v = Good-failed ports v
port_open_lem (some name) flags caller ports v =
    Good-if _ _ _ (Good-failed ports v)
      (open_or_create-Good (port_find_by_name name ports) name flags caller ports (found name) v)
  where
    found :
        (name : List ℕ) (i : ℕ)
        → port_find_by_name name ports ≡ some i
        → (i < length ports) × ((get_or ports i null_port).id ≢ 0)
    found name i e =
        let (low, hit, seen) =
          find_index-some
            (λ p. not (p.id == 0) && str_eq (take port_name_len p.name) (take port_name_len name))
            ports i null_port e in
        (low, ground arith)
