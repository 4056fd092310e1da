-- ===== src/Vfs/Ramfs/Listing.antt =====
-- `ramfs_readdir` of kernel/vfs/ramfs.c. The names in the caller's buffer are arrays of 256 bytes,
-- which end with a zero byte only where the code writes one.
use open_asd.Prelude.{
  ℕ, zero, suc, ◌+◌, ◌-◌, ◌≤◌, inl, inr, Bool, false, not, ◌&&◌, ◌||◌, Option, none, some, List, [],
  ◌∷◌, ◌++◌, arith, ltb, leb, ◌==◌, ltb→lt, str_eq, Bool-cases, Option-cases, length, set, get_or,
  take, drop, replicate, if◌then◌else◌,
}
use open_asd.Prelude.Int.{pos, wrap_signed}
use open_asd.Vfs.Backend.{Dirent}
use open_asd.Vfs.Ramfs.{Entry, File, entry_at, ramfs_max_files, node_dir, copy_over}

abbrev pub dirent_name_len : ℕ
dirent_name_len = 256

abbrev null_dirent : Dirent
null_dirent = record { name = []; kind = 0; size = pos 0 }

-- "Extract the name component relative to dir"; none where the code skips the entry.
unfoldable pub name_in : List ℕ → List ℕ → Option (List ℕ)
name_in dir path =
    if str_eq dir (b'/' ∷ [])
    then (if not (get_or path 0 0 == b'/') || leb (length path) 1 then none else some (drop 1 path))
    else if not (str_eq (take (length dir) path) dir)
    then none
    else if not (get_or path (length dir) 0 == b'/')
    then none
    else some (drop (length dir + 1) path)

-- `strrchr`
unfoldable pub last_slash : List ℕ → Option ℕ
last_slash [] = none
last_slash (c ∷ cs) = elim (last_slash cs) [
  | some i ↦ some (suc i)
  | none ↦ if c == b'/' then some 0 else none
]

-- "Check if we already added this subdirectory", among the first `count` dirents.
unfoldable pub has_sub : ℕ → List ℕ → ℕ → List Dirent → Bool
has_sub zero name sub_len buf = false
has_sub (suc count) name sub_len [] = false
has_sub (suc count) name sub_len (d ∷ buf) =
    let rest = has_sub count name sub_len buf in
    (str_eq (take sub_len d.name) (take sub_len name)
      && (get_or d.name sub_len 0 == 0)
      && (d.kind == node_dir))
    || rest

-- Up to the slash, and the slash: no zero byte is written.
abbrev pub sub_dirent : List ℕ → ℕ → Dirent → Dirent
sub_dirent name sub_len old = record {
  name = copy_over (take (sub_len + 1) name) old.name;
  kind = node_dir;
  size = pos 0;
}

-- An array filled up with zeros, as by `strncpy`.
abbrev pub entry_dirent : List ℕ → Entry → Dirent
entry_dirent name e = record {
  name = take dirent_name_len name ++ replicate (dirent_name_len - length name) 0;
  kind = e.kind;
  size = wrap_signed 64 (pos e.size);
}

unfoldable pub add_name : List ℕ → Entry → List Dirent → ℕ → List Dirent × ℕ
add_name name e buf count = elim (last_slash name) [
  | none ↦ (set buf count (entry_dirent name e), count + 1)
  | some sub_len ↦
      if has_sub count name sub_len buf
      then (buf, count)
      else (set buf count (sub_dirent name sub_len (get_or buf count null_dirent)), count + 1)
]

-- One turn of the loop, at index `i`.
unfoldable pub list_entry : ℕ → Entry → ℕ → List ℕ → List Dirent → ℕ → List Dirent × ℕ
list_entry i e self dir buf count =
    if not e.valid || (i == self)
    then (buf, count)
    else elim (name_in dir e.path) [ none ↦ (buf, count) | some name ↦ add_name name e buf count ]

unfoldable pub list_from : ℕ → List Entry → ℕ → List ℕ → ℕ → List Dirent → ℕ → List Dirent × ℕ
list_from i [] self dir cap buf count = (buf, count)
list_from i (e ∷ es) self dir cap buf count =
    let (buf1, count1) = list_entry i e self dir buf count in
    let rest = list_from (i + 1) es self dir cap buf1 count1 in
    if ltb count cap then rest else (buf, count)

-- The dirents, and `*n_out`.
unfoldable pub ramfs_readdir : File → List Dirent → ℕ → List Entry → List Dirent × ℕ
ramfs_readdir f buf cap fs =
    list_from 0 (take ramfs_max_files fs) f.entry (entry_at f.entry fs).path cap buf 0

add_name-count :
    (name : List ℕ) (e : Entry) (buf : List Dirent) (count : ℕ)
    → (add_name name e buf count).1 ≤ count + 1
unfolding add_name
add_name-count name e buf count = elim (Option-cases (last_slash name)) [
  | inl flat ↦ rw (flat, add_name) (omega arith)
  | inr (sub_len, deep) ↦ elim (Bool-cases (has_sub count name sub_len buf)) [
    | inl listed ↦ rw (deep, listed, add_name) (omega arith)
    | inr new ↦ rw (deep, new, add_name) (omega arith)
  ]
]

module _ (self : ℕ) (dir : List ℕ) (cap : ℕ) where
  list_entry-count :
      (i : ℕ) (e : Entry) (buf : List Dirent) (count : ℕ)
      → (list_entry i e self dir buf count).1 ≤ count + 1
  unfolding list_entry
  list_entry-count i e buf count = elim (Bool-cases (not e.valid || (i == self))) [
    | inl skipped ↦ rw skipped (omega arith)
    | inr there ↦ elim (Option-cases (name_in dir e.path)) [
      | inl outside ↦ rw (there, outside) (omega arith)
      | inr (name, inside) ↦ rw (there, inside) (add_name-count name e buf count)
    ]
  ]

  -- No dirent is written behind the caller's buffer.
  pub list_from-count :
      (i : ℕ) (es : List Entry) (buf : List Dirent) (count : ℕ)
      → count ≤ cap
      → (list_from i es self dir cap buf count).1 ≤ cap
  unfolding list_from
  list_from-count i [] buf count l = l
  list_from-count i (e ∷ es) buf count l = elim (Bool-cases (ltb count cap)) [
    | inl more ↦ rw more (
        list_from-count (i + 1) es (list_entry i e self dir buf count).0
          (list_entry i e self dir buf count).1
          (omega (arith, ltb→lt count cap more, list_entry-count i e buf count)))
    | inr full ↦ rw full l
  ]
