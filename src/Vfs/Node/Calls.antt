-- ===== src/Vfs/Node/Calls.antt =====
-- `vfs_open`, `vfs_close`, `vfs_read`, `vfs_write` and `vfs_seek` of kernel/vfs/vfs.c.
pub mod Named
use open_asd.Prelude.{
  ℕ, zero, suc, ◌+◌, ◌-◌, ◌%◌, ◌^◌, min, bit_and, bit_or, ◌⊎◌, inl, inr, Bool, true, false, not,
  ◌&&◌, ◌||◌, Option, none, some, List, [], ◌++◌, ok, fail, leb, ◌==◌, str_eq, length, set, get_or,
  take, drop, if◌then◌else◌,
}
use open_asd.Prelude.Int.{ℤ, pos, negsuc, ◌+ℤ◌, is_neg}
use open_asd.Prelude.Find.{find_index}
use open_asd.Ipc.Ring.{Ring, push, pop}
use open_asd.Vfs.Path.{vfs_path_max, vfs_canonicalize}
use open_asd.Vfs.Backend.{Ops, Backend}
use open_asd.Vfs.Mount.{find_backend}
use open_asd.Vfs.Node.{
  Node, Vfs, max_fds, o_read, o_write, err, enoent, einval, eperm, emfile, empty_node,
  alloc_node_id, node_of_fd, set_fd, set_node, set_world,
}

-- `(fd_t)` of a code.
abbrev pub as_fd : ℤ → ℕ
as_fd (pos n) = n % 2 ^ 32
as_fd (negsuc n) = 2 ^ 32 - 1 - n

-- `if (be->ops.close) be->ops.close(be, bctx);`
unfoldable pub close_ctx : {W C : Type 0} → Backend W C → C → Vfs W C → Vfs W C
close_ctx be ctx s = elim be.ops.close [ none ↦ s | some f ↦ set_world (f s.world be.id ctx) s ]

-- "Get file size if backend supports stat"
unfoldable pub stat_size : {W C : Type 0} → Backend W C → List ℕ → Vfs W C → ℤ × Vfs W C
stat_size be rel s = elim be.ops.stat [
  | none ↦ (negsuc 0, s)
  | some f ↦
      let r = f s.world be.id rel in
      (
        elim r.0 [ pos k ↦ if k == 0 then r.1.size else negsuc 0 | negsuc k ↦ negsuc 0 ],
        set_world r.2 s,
      )
]

abbrev pub is_null : Option ℕ → Bool
is_null none = true
is_null (some i) = false

-- "No fd slot available — release the node"
unfoldable pub release : {W C : Type 0} → Backend W C → C → ℕ → Vfs W C → ℕ × Vfs W C
unfolding close_ctx
release be ctx nid s =
    let node = get_or s.nodes nid empty_node in
    (as_fd emfile, close_ctx be ctx (set_node nid (record node { node_id = 0 }) s))

-- The node that `vfs_open` fills in.
abbrev pub new_node : {W C : Type 0} → Backend W C → List ℕ → ℕ → Option ℕ → C → ℕ → ℤ → Node W C
new_node be path flags caller ctx nid size = record {
  node_id = nid;
  refcount = 1;
  flags = flags;
  offset = 0;
  size = size;
  path = take (vfs_path_max - 1) path;
  backend = some be;
  bctx = some ctx;
  pcb = caller;
  ring = none;
  port_id = 0;
}

-- The rest of `vfs_open` once a node has been allocated.
unfoldable pub install :
    {W C : Type 0} → Backend W C → List ℕ → List ℕ → ℕ → Option ℕ → C → ℕ → Vfs W C → ℕ × Vfs W C
unfolding stat_size release
install be rel path flags caller ctx nid s0 =
    let sized = stat_size be rel s0 in
    let s = set_node nid (new_node be path flags caller ctx nid sized.0) sized.1 in
    elim caller [
      | none ↦ (nid + max_fds, s)
      | some p ↦ elim (find_index is_null (drop 1 (s.fd_tables p))) [
        | none ↦ release be ctx nid s
        | some i ↦ (i + 1, set_fd p (i + 1) (some nid) s)
      ]
    ]

-- From the call of `be->ops.open` on.
unfoldable pub open_with :
    {W C : Type 0} → Backend W C → List ℕ → List ℕ → ℕ → Option ℕ → Vfs W C → ℕ × Vfs W C
unfolding close_ctx install
open_with be rel path flags caller s = elim be.ops.open_at [
  | none ↦ (as_fd enoent, s)
  | some f ↦
      let r = f s.world be.id rel flags in
      let s1 = set_world r.1 s in
      elim r.0 [
        | none ↦ (as_fd enoent, s1)
        | some ctx ↦
            let a = alloc_node_id s1 in
            if a.0 == 0
            then (as_fd emfile, close_ctx be ctx a.1)
            else install be rel path flags caller ctx a.0 a.1
      ]
]

unfoldable pub vfs_open : {W C : Type 0} → Option (List ℕ) → ℕ → Option ℕ → Vfs W C → ℕ × Vfs W C
unfolding open_with
vfs_open none flags caller s = (as_fd einval, s)
vfs_open (some path) flags caller s =
    if str_eq path [] then (as_fd einval, s) else elim (vfs_canonicalize (some path) vfs_path_max) [
      | none ↦ (as_fd einval, s)
      | some canon ↦
          let flags' =
            if bit_and flags (bit_or o_read o_write) == 0 then bit_or flags o_read else flags in
          elim (find_backend canon s.backends) [
            | none ↦ (as_fd enoent, s)
            | some found ↦ open_with found.0 found.1 canon flags' caller s
          ]
    ]

-- `if (node->backend && node->backend->ops.close) …`
unfoldable pub close_node : {W C : Type 0} → Node W C → Vfs W C → Vfs W C
unfolding close_ctx
close_node node s = elim node.backend [
  | none ↦ s
  | some be ↦ elim node.bctx [ none ↦ s | some ctx ↦ close_ctx be ctx s ]
]

-- `refcount--` on 32 bits, and what follows when it is 0.
unfoldable pub drop_ref : {W C : Type 0} → ℕ → Vfs W C → Vfs W C
unfolding close_node
drop_ref nid s =
    let node = get_or s.nodes nid empty_node in
    let refs = (node.refcount + (2 ^ 32 - 1)) % 2 ^ 32 in
    if refs == 0
    then set_node nid (record node { refcount = refs; node_id = 0 }) (close_node node s)
    else set_node nid (record node { refcount = refs }) s

unfoldable pub vfs_close : {W C : Type 0} → ℕ → Vfs W C → ℤ × Vfs W C
unfolding drop_ref
vfs_close fd s = if fd == 0 then (einval, s) else elim (node_of_fd fd s) [
  | none ↦ (einval, s)
  | some nid ↦ (
    pos 0,
    drop_ref nid
        (if leb max_fds fd then s else elim s.current [ none ↦ s | some p ↦ set_fd p fd none s ]),
  )
]

-- The loop that reads from a ring; `left` is `n - total`. A turn that does not end it reads at
-- least one byte if the slots have one, so `n` turns are enough.
unfoldable pub read_ring : ℕ → ℕ → Ring → List ℕ × Ring
read_ring zero left rb = ([], rb)
read_ring (suc k) left rb =
    let chunk = min left rb.slot_size in
    let r = pop rb chunk in
    let rest = read_ring k (left - chunk) r.2 in
    if left == 0 then ([], rb) else elim r.0 [ fail ↦ ([], rb) | ok ↦ (r.1 ++ rest.0, rest.1) ]

-- The loop that writes to a ring, with the bytes that are left: how many were written.
unfoldable pub write_ring : ℕ → List ℕ → Ring → ℕ × Ring
write_ring zero left rb = (0, rb)
write_ring (suc k) left rb =
    let chunk = min (length left) rb.slot_size in
    let r = push rb left chunk in
    let rest = write_ring k (drop chunk left) r.1 in
    if length left == 0
    then (0, rb)
    else elim r.0 [ fail ↦ (0, rb) | ok ↦ (chunk + rest.0, rest.1) ]

abbrev pub set_ring : {W C : Type 0} → ℕ → Ring → Vfs W C → Vfs W C
set_ring i rb s = record s { rings = set s.rings i rb }

abbrev pub null_ring : Ring
null_ring = record {
  magic = 0;
  version = 0;
  slot_size = 0;
  slot_count = 0;
  write_idx = 0;
  read_idx = 0;
  slots = [];
}

abbrev pub advance : {W C : Type 0} → ℕ → ℕ → Vfs W C → Vfs W C
advance nid n s =
    let node = get_or s.nodes nid empty_node in
    set_node nid (record node { offset = (node.offset + n) % 2 ^ 64 }) s

-- The code, the bytes in `buf`, the state; `want` is whether `got` is not null, `buf` whether the
-- buffer is not. A backend without a context has none to read from: the code passes NULL on.
unfoldable pub vfs_read : {W C : Type 0} → ℕ → Bool → ℕ → Bool → Vfs W C → ℤ × List ℕ × Vfs W C
unfolding read_ring
vfs_read fd buf n want s =
    if (fd == 0) || not buf then (einval, [], s) else elim (node_of_fd fd s) [
      | none ↦ (einval, [], s)
      | some nid ↦
          let node = get_or s.nodes nid empty_node in
          elim node.ring [
            | some i ↦
                let r = read_ring n n (get_or s.rings i null_ring) in
                (if length r.0 == 0 then err else pos 0, r.0, set_ring i r.1 s)
            | none ↦ elim node.backend [
              | none ↦ (eperm, [], s)
              | some be ↦ elim be.ops.read [
                | none ↦ (eperm, [], s)
                | some f ↦ elim node.bctx [
                  | none ↦ (eperm, [], s)
                  | some ctx ↦
                      let r = f s.world be.id ctx n in
                      let s1 = set_world r.2 s in
                      (
                        r.0,
                        r.1,
                        elim r.0 [
                          | pos k ↦ if (k == 0) && want then advance nid (length r.1) s1 else s1
                          | negsuc k ↦ s1
                        ],
                      )
                ]
              ]
            ]
          ]
    ]

-- "Backend write"
unfoldable pub write_backend : {W C : Type 0} → ℕ → Node W C → List ℕ → Vfs W C → ℤ × Vfs W C
write_backend nid node buf s = elim node.backend [
  | none ↦ (eperm, s)
  | some be ↦ elim be.ops.write [
    | none ↦ (eperm, s)
    | some f ↦ elim node.bctx [
      | none ↦ (eperm, s)
      | some ctx ↦
          let r = f s.world be.id ctx buf in
          let s1 = set_world r.1 s in
          (
            r.0,
            elim r.0 [ pos k ↦ if k == 0 then advance nid (length buf) s1 else s1 | negsuc k ↦ s1 ],
          )
    ]
  ]
]

unfoldable pub vfs_write :
    {W C : Type 0} → (ℕ → List ℕ → W → ℤ × W) → ℕ → Option (List ℕ) → Vfs W C → ℤ × Vfs W C
unfolding write_ring write_backend
vfs_write port_send fd none s = (einval, s)
vfs_write port_send fd (some buf) s =
    if (fd == 0) || (length buf == 0) then (einval, s) else elim (node_of_fd fd s) [
      | none ↦ (einval, s)
      | some nid ↦
          let node = get_or s.nodes nid empty_node in
          elim node.ring [
            | some i ↦
                let r = write_ring (length buf) buf (get_or s.rings i null_ring) in
                (if r.0 == 0 then err else pos 0, set_ring i r.1 s)
            | none ↦
                let sent = port_send node.port_id buf s.world in
                if node.port_id == 0
                then write_backend nid node buf s
                else (sent.0, set_world sent.1 s)
          ]
    ]

-- "Simple offset-based seek": the new offset, or the code of the early return. The sums do not
-- overflow `int64_t`.
unfoldable pub new_offset : {W C : Type 0} → Node W C → ℤ → ℕ → ℤ ⊎ ℤ
new_offset node off whence =
    if whence == 0
    then inr off
    else if whence == 1
    then inr (pos node.offset +ℤ off)
    else if whence == 2
    then (if is_neg node.size then inl err else inr (node.size +ℤ off))
    else inl einval

abbrev pub set_offset : {W C : Type 0} → ℕ → ℕ → Vfs W C → Vfs W C
set_offset nid n s =
    let node = get_or s.nodes nid empty_node in set_node nid (record node { offset = n }) s

unfoldable pub simple_seek : {W C : Type 0} → ℕ → ℤ → ℕ → Vfs W C → ℤ × Vfs W C
unfolding new_offset
simple_seek nid off whence s = elim (new_offset (get_or s.nodes nid empty_node) off whence) [
  | inl code ↦ (code, s)
  | inr (pos n) ↦ (pos n, set_offset nid n s)
  | inr (negsuc n) ↦ (einval, s)
]

unfoldable pub vfs_seek : {W C : Type 0} → ℕ → ℤ → ℕ → Vfs W C → ℤ × Vfs W C
unfolding simple_seek
vfs_seek fd off whence s = if fd == 0 then (einval, s) else elim (node_of_fd fd s) [
  | none ↦ (einval, s)
  | some nid ↦
      let node = get_or s.nodes nid empty_node in
      elim node.backend [
        | none ↦ simple_seek nid off whence s
        | some be ↦ elim be.ops.seek [
          | none ↦ simple_seek nid off whence s
          | some f ↦ elim node.bctx [
            | none ↦ (einval, s)
            | some ctx ↦
                let r = f s.world be.id ctx off whence in
                let s1 = set_world r.1 s in
                (r.0, elim r.0 [ pos n ↦ set_offset nid n s1 | negsuc n ↦ s1 ])
          ]
        ]
      ]
]
