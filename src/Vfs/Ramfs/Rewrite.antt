-- ===== src/Vfs/Ramfs/Rewrite.antt =====
-- Writing a whole file by its path in kernel/vfs/ramfs.c, and finding it again.
use open_asd.Prelude.{
  ℕ, zero, suc, ◌<◌, ◌≡◌, refl, sym, ap, ◌∙◌, ◌⊎◌, inl, inr, Bool, true, false, not, ◌&&◌, Option,
  none, some, List, [], ◌∷◌, ◌++◌, arith, ok, ltb, lt→ltb, str_eq, str_eq_refl, Option-cases,
  length, set, get_or, take, length-take, take_all, if◌then◌else◌,
}
use mathlib.Core.Path.{subst}
use open_asd.Prelude.Find.{find_index, find_index-some, find_index-set_found, find_index-set_new}
use open_asd.Prelude.Window.{get_or-set_self}
use open_asd.Vfs.Ramfs.{
  Entry, null_entry, entry_at, ramfs_max_files, ramfs_name_len, node_file, copy_over, bytes_of,
  filled, no_memory, new_entry, overwrite, ramfs_find, free_entry, ramfs_add_file,
  ramfs_root_writefile,
}
use open_asd.Vfs.Ramfs.Bytes.{contents, IsStored, HasMemory, drop_all}

take-set : (n i : ℕ) (xs : List Entry) (v : Entry) → take n (set xs i v) ≡ set (take n xs) i v
take-set zero i xs v = refl
take-set (suc n) i [] v = refl
take-set (suc n) zero (x ∷ xs) v = refl
take-set (suc n) (suc i) (x ∷ xs) v = ap (λ t. x ∷ t) (take-set n i xs v)

get_or-take :
    (n i : ℕ) (xs : List Entry)
    → i < length (take n xs)
    → get_or (take n xs) i null_entry ≡ get_or xs i null_entry
get_or-take zero i xs l = absurd (omega arith)
get_or-take (suc n) i [] l = refl
get_or-take (suc n) zero (x ∷ xs) l = refl
get_or-take (suc n) (suc i) (x ∷ xs) l = get_or-take n i xs (omega arith)

-- The bytes of a new buffer of the right size.
filled-bytes : (bytes buf : List ℕ) → length buf ≡ length bytes → copy_over bytes buf ≡ bytes
filled-bytes bytes buf e =
    ap (λ t. bytes ++ t) (drop_all (length bytes) buf (omega arith)) ∙ append_nil bytes
  where
    append_nil : (xs : List ℕ) → xs ++ [] ≡ xs
    append_nil [] = refl
    append_nil (x ∷ xs) = ap (λ t. x ∷ t) (append_nil xs)

-- What the tables' loops look for.
abbrev matches : List ℕ → Entry → Bool
matches path e = e.valid && str_eq e.path path

matches-new :
    (path : List ℕ) (buffer : Option (List ℕ)) (size kind : ℕ)
    → length path < ramfs_name_len
    → matches path (new_entry path buffer size kind) ≡ true
matches-new path buffer size kind l =
    ap (λ t. str_eq t path) (take_all ramfs_name_len path (omega arith)) ∙ str_eq_refl path

-- The entry of a path holds the bytes, and no other entry has changed.
abbrev pub Holds : List ℕ → List ℕ → List Entry → List Entry → Type 0
Holds path bytes fs fs' =
    (i : ℕ) × (ramfs_find path fs' ≡ some i)
    × (contents (entry_at i fs') ≡ bytes)
    × IsStored (entry_at i fs')
    × (fs' ≡ set fs i (entry_at i fs'))

in_table : (i : ℕ) (fs : List Entry) → i < length (take ramfs_max_files fs) → i < length fs
in_table i fs l = omega (arith, length-take ramfs_max_files fs)

-- From where the entry is written.
set-Holds :
    (path bytes : List ℕ) (fs : List Entry) (i : ℕ) (e : Entry)
    → i < length (take ramfs_max_files fs)
    → find_index (matches path) (set (take ramfs_max_files fs) i e) ≡ some i
    → contents e ≡ bytes
    → IsStored e
    → Holds path bytes fs (set fs i e)
unfolding ramfs_find
set-Holds path bytes fs i e l found same good =
    let here = get_or-set_self fs i e null_entry (in_table i fs l) in
    (
      i,
      ap (find_index (matches path)) (take-set ramfs_max_files i fs e) ∙ found,
      ap contents here ∙ same,
      subst IsStored (sym here) good,
      ap (set fs i) (sym here),
    )

-- What is stored in the memory found.
stored :
    (bytes : List ℕ) (o : Option (List ℕ))
    → length (bytes_of o) ≡ length bytes
    → (no_memory o (length bytes) ≡ false) × (bytes_of (filled (some bytes) o) ≡ bytes)
stored [] none e = (refl, refl)
stored (x ∷ bytes) none e = absurd (omega arith)
stored bytes (some buf) e = (refl, filled-bytes bytes buf e)

-- The memory for `overwrite`.
new_bytes : (ℕ → Option (List ℕ)) → ℕ → Option (List ℕ)
new_bytes kmalloc size = if ltb 0 size then kmalloc size else none

length-new_bytes :
    (kmalloc : ℕ → Option (List ℕ)) (size : ℕ)
    → HasMemory kmalloc size
    → length (bytes_of (new_bytes kmalloc size)) ≡ size
unfolding new_bytes
length-new_bytes kmalloc zero memory = refl
length-new_bytes kmalloc (suc size) memory = rw (lt→ltb 0 (suc size) (omega arith)) memory

writefile-found :
    (kmalloc : ℕ → Option (List ℕ)) (path bytes : List ℕ) (fs : List Entry) (i : ℕ)
    → HasMemory kmalloc (length bytes)
    → ramfs_find path fs ≡ some i
    → (fs' : List Entry) × (ramfs_root_writefile kmalloc path (some bytes) (length bytes) fs
        ≡ (ok, fs'))
      × Holds path bytes fs fs'
unfolding ramfs_root_writefile ramfs_find new_bytes find_index
writefile-found kmalloc path bytes fs i memory found =
    let (enough, same) =
      stored bytes (new_bytes kmalloc (length bytes))
        (length-new_bytes kmalloc (length bytes) memory) in
    let e' =
      overwrite (new_bytes kmalloc (length bytes)) (some bytes) (length bytes) (entry_at i fs) in
    let (l, is, there) =
      find_index-some (matches path) (take ramfs_max_files fs) i null_entry found in
    (
      set fs i e',
      rw (found, enough) refl,
      set-Holds path bytes fs i e' l
          (find_index-set_found (matches path) (take ramfs_max_files fs) i e' found
            (ap (matches path) (sym (get_or-take ramfs_max_files i fs l)) ∙ is))
          same (ap length same),
    )

writefile-new :
    (kmalloc : ℕ → Option (List ℕ)) (path bytes : List ℕ) (fs : List Entry) (i : ℕ)
    → HasMemory kmalloc (length bytes)
    → length path < ramfs_name_len
    → ramfs_find path fs ≡ none
    → free_entry fs ≡ some i
    → (fs' : List Entry) × (ramfs_root_writefile kmalloc path (some bytes) (length bytes) fs
        ≡ (ok, fs'))
      × Holds path bytes fs fs'
unfolding ramfs_root_writefile ramfs_find ramfs_add_file free_entry find_index
writefile-new kmalloc path bytes fs i memory short missing free =
    let (enough, same) = stored bytes (kmalloc (length bytes)) memory in
    let buffer = filled (some bytes) (kmalloc (length bytes)) in
    let e' = new_entry path buffer (length bytes) node_file in
    let (l, is, there) =
      find_index-some (λ (e : Entry). not e.valid) (take ramfs_max_files fs) i null_entry free in
    (
      set fs i e',
      rw (missing, free, enough) refl,
      set-Holds path bytes fs i e' l
          (find_index-set_new (matches path) (take ramfs_max_files fs) i e' missing l
            (matches-new path buffer (length bytes) node_file short))
          same (ap length same),
    )

-- When there is memory for the bytes, the path is shorter than 256 bytes, and it has an entry or an entry is free,
-- `ramfs_root_writefile` succeeds: the path is found afterwards, at an entry that holds exactly
-- the bytes, and no other entry has changed.
pub writefile-find :
    (kmalloc : ℕ → Option (List ℕ)) (path bytes : List ℕ) (fs : List Entry)
    → HasMemory kmalloc (length bytes)
    → length path < ramfs_name_len
    → ((i : ℕ) × (ramfs_find path fs ≡ some i)) ⊎ ((i : ℕ) × (free_entry fs ≡ some i))
    → (fs' : List Entry) × (ramfs_root_writefile kmalloc path (some bytes) (length bytes) fs
        ≡ (ok, fs'))
      × Holds path bytes fs fs'
writefile-find kmalloc path bytes fs memory short (inl (i, found)) =
    writefile-found kmalloc path bytes fs i memory found
writefile-find kmalloc path bytes fs memory short (inr (i, free)) =
    elim (Option-cases (ramfs_find path fs)) [
      | inl missing ↦ writefile-new kmalloc path bytes fs i memory short missing free
      | inr (j, found) ↦ writefile-found kmalloc path bytes fs j memory found
    ]
