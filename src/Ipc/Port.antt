-- ===== src/Ipc/Port.antt =====
-- kernel/ipc/port.c: the table of 1024 message ports, without the messages. A name is the
-- list of its bytes; waking a process is in the result.
pub mod Handles
pub mod Messages
mod Tests
use open_asd.Prelude.{
  ℕ, ◌+◌, ◌-◌, ◌%◌, ◌^◌, bit_and, true, not, ◌&&◌, ◌||◌, Option, none, some, List, [], ltb, ◌==◌,
  str_eq, set, get_or, take, replicate, if◌then◌else◌,
}
use open_asd.Prelude.Find.{find_index}
use open_asd.Ipc.Ring.{Ring, init}

abbrev pub max_ports : ℕ
max_ports = 1024

abbrev pub port_name_len : ℕ
port_name_len = 64

abbrev pub port_queue_depth : ℕ
port_queue_depth = 64

abbrev pub port_slot_size : ℕ
port_slot_size = 64

abbrev pub port_create : ℕ
port_create = 1

abbrev pub port_attach : ℕ
port_attach = 2

-- `port_obj_t`
pub record Port : Type 0 where
  pub name : List ℕ
  pub id : ℕ
  pub owner_pid : ℕ
  pub refcount : ℕ
  pub ring : Option Ring
  pub waiter : Option ℕ

abbrev pub null_port : Port
null_port = record { name = []; id = 0; owner_pid = 0; refcount = 0; ring = none; waiter = none }

unfoldable pub port_subsystem_init : List Port
port_subsystem_init = replicate max_ports null_port

-- `strncmp` of the first 64 bytes.
unfoldable pub port_find_by_name : List ℕ → List Port → Option ℕ
port_find_by_name name ports =
    find_index
      (λ p. not (p.id == 0) && str_eq (take port_name_len p.name) (take port_name_len name)) ports

-- The index of the port.
unfoldable pub port_find_by_id : ℕ → List Port → Option ℕ
port_find_by_id id ports =
    if (id == 0) || ltb max_ports id
    then none
    else if (get_or ports (id - 1) null_port).id == id
    then some (id - 1)
    else none

abbrev pub set_refs : ℕ → Port → Port
set_refs n p = record p { refcount = n }

-- "Port already exists — attach to it"
unfoldable pub attach : ℕ → ℕ → List Port → ℕ × List Port
attach i flags ports =
    let p = get_or ports i null_port in
    if bit_and flags port_attach == 0
    then (0, ports)
    else (p.id, set ports i (set_refs ((p.refcount + 1) % 2 ^ 32) p))

-- The slot found is filled in.
unfoldable pub create : Option ℕ → List ℕ → ℕ → List Port → ℕ × List Port
create none name caller_pid ports = (0, ports)
create (some i) name caller_pid ports = (
  i + 1,
  set ports i (record {
    name = take (port_name_len - 1) name;
    id = i + 1;
    owner_pid = caller_pid;
    refcount = 1;
    ring = init true port_slot_size port_queue_depth;
    waiter = none;
  }),
)

-- From the search by name on.
unfoldable pub open_or_create : Option ℕ → List ℕ → ℕ → ℕ → List Port → ℕ × List Port
unfolding attach create
open_or_create (some i) name flags caller_pid ports = attach i flags ports
open_or_create none name flags caller_pid ports =
    if bit_and flags port_create == 0
    then (0, ports)
    else create (find_index (λ p. p.id == 0) ports) name caller_pid ports

-- The handle, 0 on an error.
unfoldable pub port_open : Option (List ℕ) → ℕ → ℕ → List Port → ℕ × List Port
unfolding open_or_create
port_open none flags caller_pid ports = (0, ports)
port_open (some name) flags caller_pid ports =
    if str_eq name []
    then (0, ports)
    else open_or_create (port_find_by_name name ports) name flags caller_pid ports

-- The waiter that is woken, and the table.
unfoldable pub port_close : ℕ → List Port → Option ℕ × List Port
port_close id ports = elim (port_find_by_id id ports) [
  | none ↦ (none, ports)
  | some i ↦
      let p = get_or ports i null_port in
      let refs = p.refcount - 1 in
      if refs == 0
      then (p.waiter, set ports i (record p { refcount = refs; id = 0 }))
      else (none, set ports i (set_refs refs p))
]
