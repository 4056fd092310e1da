-- ===== src/Vfs/Node/Calls/Named.antt =====
-- The calls of kernel/vfs/vfs.c on paths: `vfs_stat`, `vfs_unlink`, `vfs_mkdir`, `vfs_readdir`,
-- `vfs_register_ring` and `vfs_unregister_node`.
use open_asd.Prelude.{
  ℕ, ◌-◌, bit_or, ◌⊎◌, inl, inr, Bool, not, ◌&&◌, Option, none, some, List, [], ◌==◌, str_eq,
  get_or, take, if◌then◌else◌,
}
use open_asd.Prelude.Int.{ℤ, pos, negsuc}
use open_asd.Prelude.Find.{find_index}
use open_asd.Vfs.Path.{vfs_path_max, vfs_canonicalize}
use open_asd.Vfs.Backend.{Backend, StatInfo, Dirent}
use open_asd.Vfs.Mount.{find_backend}
use open_asd.Vfs.Node.{
  Vfs, o_read, o_write, o_dir, enoent, einval, enodev, emfile, empty_node, alloc_node_id, set_node,
  set_world,
}

-- The backend of a path in canonical form and the path for it, or the code of the early return;
-- `code` is the one for a path that no backend serves.
unfoldable pub backend_of : {W C : Type 0} → ℤ → List ℕ → Vfs W C → ℤ ⊎ (Backend W C × List ℕ)
backend_of code path s = elim (vfs_canonicalize (some path) vfs_path_max) [
  | none ↦ inl einval
  | some canon ↦ elim (find_backend canon s.backends) [ none ↦ inl code | some found ↦ inr found ]
]

unfoldable pub vfs_stat : {W C : Type 0} → Option (List ℕ) → Vfs W C → ℤ × Option StatInfo × Vfs W C
unfolding backend_of
vfs_stat none s = (einval, none, s)
vfs_stat (some path) s = elim (backend_of enoent path s) [
  | inl code ↦ (code, none, s)
  | inr found ↦ elim found.0.ops.stat [
    | none ↦ (enoent, none, s)
    | some f ↦ let r = f s.world found.0.id found.1 in (r.0, some r.1, set_world r.2 s)
  ]
]

unfoldable pub vfs_unlink : {W C : Type 0} → Option (List ℕ) → Vfs W C → ℤ × Vfs W C
unfolding backend_of
vfs_unlink none s = (einval, s)
vfs_unlink (some path) s = if str_eq path [] then (einval, s) else elim (backend_of enodev path s) [
  | inl code ↦ (code, s)
  | inr found ↦ elim found.0.ops.unlink [
    | none ↦ (enodev, s)
    | some f ↦ let r = f s.world found.0.id found.1 in (r.0, set_world r.1 s)
  ]
]

unfoldable pub vfs_mkdir : {W C : Type 0} → Option (List ℕ) → Vfs W C → ℤ × Vfs W C
unfolding backend_of
vfs_mkdir none s = (einval, s)
vfs_mkdir (some path) s = if str_eq path [] then (einval, s) else elim (backend_of enodev path s) [
  | inl code ↦ (code, s)
  | inr found ↦ elim found.0.ops.mkdir [
    | none ↦ (enodev, s)
    | some f ↦ let r = f s.world found.0.id found.1 in (r.0, set_world r.1 s)
  ]
]

-- The path as the caller gave it. `open` and `close` are called without a test; a backend that
-- reads directories has both.
unfoldable pub read_dir :
    {W C : Type 0} → Backend W C → List ℕ → ℕ → Vfs W C → ℤ × List Dirent × Vfs W C
read_dir be rel cap s = elim be.ops.readdir [
  | none ↦ (enodev, [], s)
  | some f ↦ elim be.ops.open_at [
    | none ↦ (enoent, [], s)
    | some open_dir ↦
        let opened = open_dir s.world be.id rel (bit_or o_read o_dir) in
        elim opened.0 [
          | none ↦ (enoent, [], set_world opened.1 s)
          | some ctx ↦
              let r = f opened.1 be.id ctx cap in
              let w = elim be.ops.close as (λ o. _) [
                | none ↦ r.2
                | some close_dir ↦ close_dir r.2 be.id ctx
              ] in
              (r.0, r.1, set_world w s)
        ]
  ]
]

unfoldable pub vfs_readdir :
    {W C : Type 0} → Option (List ℕ) → Bool → ℕ → Vfs W C → ℤ × List Dirent × Vfs W C
unfolding read_dir
vfs_readdir none buf cap s = (einval, [], s)
vfs_readdir (some path) buf cap s =
    if not buf then (einval, [], s) else elim (find_backend path s.backends) [
      | none ↦ (enodev, [], s)
      | some found ↦ read_dir found.0 found.1 cap s
    ]

-- "permanent registration"
unfoldable pub vfs_register_ring :
    {W C : Type 0} → Option (List ℕ) → Option ℕ → Vfs W C → ℤ × Vfs W C
vfs_register_ring none ring s = (einval, s)
vfs_register_ring (some path) none s = (einval, s)
vfs_register_ring (some path) (some ring_id) s =
    let a = alloc_node_id s in
    if a.0 == 0 then (emfile, a.1) else (
      pos 0,
      set_node a.0
          (record empty_node {
            node_id = a.0;
            refcount = 1;
            flags = bit_or o_read o_write;
            size = negsuc 0;
            path = take (vfs_path_max - 1) path;
            ring = some ring_id;
          })
          a.1,
    )

unfoldable pub vfs_unregister_node : {W C : Type 0} → Option (List ℕ) → Vfs W C → ℤ × Vfs W C
vfs_unregister_node none s = (einval, s)
vfs_unregister_node (some path) s =
    elim (find_index (λ n. not (n.node_id == 0) && str_eq n.path path) s.nodes) [
      | none ↦ (enoent, s)
      | some i ↦ (pos 0, set_node i (record (get_or s.nodes i empty_node) { node_id = 0 }) s)
    ]
