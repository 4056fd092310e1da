-- ===== src/Vfs/Mount/Tests.antt =====
-- A table with "/" and "/b" mounted.
use open_asd.Prelude.{ℕ, ◌≤◌, ◌≡◌, refl, ◌≢◌, none, some, List, [], ◌∷◌, arith, length, get_elem?}
use open_asd.Prelude.Find.{find_index}
use open_asd.Vfs.Backend.{Ops, Backend}
use open_asd.Vfs.Mount.{serves, rel_path, best_of, with_rel, find_backend, vfs_mount}
use open_asd.Vfs.Mount.Serves.{Gives, Serves}
use open_asd.Vfs.Mount.Longest.{find_backend_lem}

abbrev no_ops : Ops ℕ ℕ
no_ops = record {
  open_at = none;
  close = none;
  read = none;
  write = none;
  seek = none;
  readdir = none;
  stat = none;
  unlink = none;
  mkdir = none;
}

abbrev at : ℕ → List ℕ → Backend ℕ ℕ
at id mount = record { id = id; name = mount; mount_pt = mount; ops = no_ops; ctx = 0 }

abbrev free_slot : Backend ℕ ℕ
free_slot = at 0 []

abbrev b_path : List ℕ
b_path = b'/' ∷ b'b' ∷ []

abbrev table : List (Backend ℕ ℕ)
table = at 1 (b'/' ∷ []) ∷ at 2 b_path ∷ []

mounted : (vfs_mount (some b_path) no_ops 0 (at 1 (b'/' ∷ []) ∷ free_slot ∷ [])).1 ≡ table
unfolding vfs_mount find_index
mounted = refl

find_backend_lem_example :
    ((be : Backend ℕ ℕ) (rel : List ℕ)
      → find_backend b_path table ≡ some (be, rel)
      → ((i : ℕ) × (get_elem? table i ≡ some be))
        × (be.id ≢ 0)
        × Gives b_path be.mount_pt rel
        × ((i : ℕ) (other : Backend ℕ ℕ)
            → get_elem? table i ≡ some other
            → Serves b_path other
            → length other.mount_pt ≤ length be.mount_pt))
    × (find_backend b_path table ≡ none
        → (i : ℕ) (other : Backend ℕ ℕ) → get_elem? table i ≡ some other
        → Serves b_path other
        → other.mount_pt ≡ [])
find_backend_lem_example =
    find_backend_lem b_path table ((λ e. omega (arith, e)), ((λ e. omega (arith, e)), tt))

-- A path that only begins with the letters of a mount point goes to "/".
beside :
    find_backend (b'/' ∷ b'b' ∷ b'x' ∷ []) table ≡ some (at 1 (b'/' ∷ []), b'/' ∷ b'b' ∷ b'x' ∷ [])
unfolding find_backend with_rel best_of serves rel_path
beside = refl
