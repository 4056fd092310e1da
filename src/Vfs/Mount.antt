-- ===== src/Vfs/Mount.antt =====
-- `vfs_mount` and `find_backend` of kernel/vfs/vfs.c. The array of 16 backends is a list; a slot
-- with id 0 is free.
pub mod Serves
pub mod Longest
mod Tests
use open_asd.Prelude.{
  ℕ, ◌+◌, ◌-◌, Bool, false, ◌&&◌, ◌||◌, Option, none, some, List, [], ◌∷◌, ltb, ◌==◌, str_eq,
  length, set, get_or, take, drop, if◌then◌else◌,
}
use open_asd.Prelude.Find.{find_index}
use open_asd.Vfs.Path.{vfs_path_max, slash}
use open_asd.Vfs.Backend.{Ops, Backend, max_backends, be_name_len}

-- The byte of a text at an index, the terminator behind its end.
abbrev pub byte_at : List ℕ → ℕ → ℕ
byte_at s i = get_or s i 0

abbrev pub is_root : List ℕ → Bool
is_root mount = (length mount == 1) && (byte_at mount 0 == slash)

-- The tests of the loop that skip a backend, negated.
unfoldable pub serves : {W C : Type 0} → List ℕ → Backend W C → Bool
serves path be =
    if be.id == 0
    then false
    else if is_root be.mount_pt
    then byte_at path 0 == slash
    else let mlen = length be.mount_pt in
      str_eq (take mlen path) be.mount_pt
      && ((byte_at path mlen == 0) || (byte_at path mlen == slash))

unfoldable pub best_of :
    {W C : Type 0} → List ℕ → List (Backend W C) → Option (Backend W C) → ℕ → Option (Backend W C)
best_of path [] best best_len = best
best_of path (be ∷ bs) best best_len =
    let better = best_of path bs (some be) (length be.mount_pt) in
    let same = best_of path bs best best_len in
    if serves path be && ltb best_len (length be.mount_pt) then better else same

-- "Root mount "/" strips one char": the path that the backend is given.
unfoldable pub rel_path : {W C : Type 0} → List ℕ → Backend W C → List ℕ
rel_path path be =
    if is_root be.mount_pt
    then path
    else let rp = drop (length be.mount_pt) path in if str_eq rp [] then slash ∷ [] else rp

unfoldable pub with_rel :
    {W C : Type 0} → List ℕ → Option (Backend W C) → Option (Backend W C × List ℕ)
with_rel path none = none
with_rel path (some be) = some (be, rel_path path be)

unfoldable pub find_backend :
    {W C : Type 0} → List ℕ → List (Backend W C) → Option (Backend W C × List ℕ)
find_backend path bs = with_rel path (best_of path bs none 0)

unfoldable pub vfs_mount :
    {W C : Type 0} → Option (List ℕ) → Ops W C → ℕ → List (Backend W C) → ℕ × List (Backend W C)
vfs_mount none ops ctx bs = (0, bs)
vfs_mount (some mount_pt) ops ctx bs =
    if str_eq mount_pt [] then (0, bs) else elim (find_index (λ be. be.id == 0) bs) [
      | none ↦ (0, bs)
      | some i ↦ (
        i + 1,
        set bs i (record {
          id = i + 1;
          name = take (be_name_len - 1) mount_pt;
          mount_pt = take (vfs_path_max - 1) mount_pt;
          ops = ops;
          ctx = ctx;
        }),
      )
    ]
