-- ===== src/Vfs/Node.antt =====
-- The table of open files of kernel/vfs/vfs.c, and the calls on descriptors and paths. A ring is
-- its index in `rings`, a process its number, a descriptor table the list of 256 node indices, none
-- for NULL; `fd` of a process is a descriptor below 256, that of the kernel the node id plus 256.
-- A result is the code or value with the state. `port_send` is the call into kernel/ipc/port.c.
pub mod Alloc
pub mod Calls
mod Tests
use open_asd.Prelude.{
  ℕ, zero, suc, ◌+◌, ◌-◌, ◌%◌, not, ◌||◌, Option, none, some, List, [], leb, ◌==◌, set, get_or,
  if◌then◌else◌,
}
use open_asd.Prelude.Int.{ℤ, pos, negsuc}
use open_asd.Ipc.Ring.{Ring}
use open_asd.Vfs.Backend.{Ops, Backend}

abbrev pub max_fds : ℕ
max_fds = 256

abbrev pub max_vfsnodes : ℕ
max_vfsnodes = 1024

abbrev pub o_read : ℕ
o_read = 1

abbrev pub o_write : ℕ
o_write = 2

abbrev pub o_dir : ℕ
o_dir = 16

-- The error codes, as negative numbers.
abbrev pub err : ℤ
err = negsuc 0

abbrev pub enoent : ℤ
enoent = negsuc 1

abbrev pub einval : ℤ
einval = negsuc 2

abbrev pub eperm : ℤ
eperm = negsuc 3

abbrev pub enodev : ℤ
enodev = negsuc 5

abbrev pub emfile : ℤ
emfile = negsuc 8

-- `vfsnode_t`
pub record Node (W C : Type 0) : Type 0 where
  pub node_id : ℕ
  pub refcount : ℕ
  pub flags : ℕ
  pub offset : ℕ
  pub size : ℤ
  pub path : List ℕ
  pub backend : Option (Backend W C)
  pub bctx : Option C
  pub pcb : Option ℕ
  pub ring : Option ℕ
  pub port_id : ℕ

pub record Vfs (W C : Type 0) : Type 0 where
  pub nodes : List (Node W C)
  pub backends : List (Backend W C)
  pub next_node_id : ℕ
  pub fd_tables : ℕ → List (Option ℕ)
  pub current : Option ℕ
  pub rings : List Ring
  pub world : W

abbrev pub empty_node : {W C : Type 0} → Node W C
empty_node = record {
  node_id = 0;
  refcount = 0;
  flags = 0;
  offset = 0;
  size = pos 0;
  path = [];
  backend = none;
  bctx = none;
  pcb = none;
  ring = none;
  port_id = 0;
}

abbrev pub id_at : {W C : Type 0} → List (Node W C) → ℕ → ℕ
id_at nodes i = (get_or nodes i empty_node).node_id

-- The loop of `alloc_node_id` from `i` on, for `n` more turns: the slot found, 0 if there is none,
-- and the next id to try.
unfoldable pub alloc_from : {W C : Type 0} → ℕ → ℕ → ℕ → List (Node W C) → ℕ × ℕ
alloc_from zero i id nodes = (0, id)
alloc_from (suc n) i id nodes =
    let candidate = (id + i) % max_vfsnodes in
    let rest = alloc_from n (i + 1) id nodes in
    if candidate == 0
    then rest
    else if id_at nodes candidate == 0
    then (
      candidate,
      if (candidate + 1) % max_vfsnodes == 0 then 1 else (candidate + 1) % max_vfsnodes,
    )
    else rest

unfoldable pub alloc_node_id : {W C : Type 0} → Vfs W C → ℕ × Vfs W C
alloc_node_id s =
    let r = alloc_from max_vfsnodes 0 s.next_node_id s.nodes in
    (r.0, record s { next_node_id = r.1 })

-- The node that a descriptor stands for, none where the calls return VFS_EINVAL.
unfoldable pub node_of_fd : {W C : Type 0} → ℕ → Vfs W C → Option ℕ
node_of_fd fd s =
    if leb max_fds fd
    then if leb max_vfsnodes (fd - max_fds) || not (id_at s.nodes (fd - max_fds) == fd - max_fds)
      then none
      else some (fd - max_fds)
    else elim s.current [ none ↦ none | some p ↦ get_or (s.fd_tables p) fd none ]

abbrev pub set_fd : {W C : Type 0} → ℕ → ℕ → Option ℕ → Vfs W C → Vfs W C
set_fd p fd v s = record s {
  fd_tables = λ q. if q == p then set (s.fd_tables p) fd v else s.fd_tables q;
}

abbrev pub set_node : {W C : Type 0} → ℕ → Node W C → Vfs W C → Vfs W C
set_node i n s = record s { nodes = set s.nodes i n }

abbrev pub set_world : {W C : Type 0} → W → Vfs W C → Vfs W C
set_world w s = record s { world = w }
