-- ===== src/Vfs/Ramfs.antt =====
-- kernel/vfs/ramfs.c: a file system in memory, as a table of 256 entries. The memory behind `data` is
-- the list of its bytes, which only the entry owns; a pointer to an entry is its index in the table,
-- and 256 for the directory "/" that no entry stands for. `kmalloc` is what the allocator answers to a
-- size at this call. The lock is free at every call and free again when it returns. Paths are
-- shorter than 256 bytes: a longer one has no terminator in its array.
pub mod Bytes
pub mod Rewrite
pub mod Listing
mod Tests
use open_asd.Prelude.{
  ℕ, ◌+◌, ◌-◌, ◌%◌, ◌^◌, min, bit_and, Bool, true, false, not, ◌&&◌, Option, none, some, List, [],
  ◌∷◌, ◌++◌, Rc, ok, fail, ltb, leb, ◌==◌, str_eq, length, set, get_or, take, drop, replicate,
  if◌then◌else◌,
}
use open_asd.Prelude.Int.{ℤ, pos, negsuc, ◌+ℤ◌, is_neg, wrap_signed}
use open_asd.Prelude.Find.{find_index}
use open_asd.Vfs.Backend.{StatInfo}

abbrev pub ramfs_name_len : ℕ
ramfs_name_len = 256

abbrev pub ramfs_max_files : ℕ
ramfs_max_files = 256

abbrev pub o_creat : ℕ
o_creat = 0x04

abbrev pub o_trunc : ℕ
o_trunc = 0x08

abbrev o_dir : ℕ
o_dir = 0x10

abbrev pub seek_set : ℕ
seek_set = 0

abbrev pub seek_cur : ℕ
seek_cur = 1

abbrev pub seek_end : ℕ
seek_end = 2

abbrev pub node_file : ℕ
node_file = 1

abbrev pub node_dir : ℕ
node_dir = 2

-- VFS_ENOENT, VFS_EINVAL, VFS_EPERM, VFS_ENOSPC
abbrev pub no_entry : ℤ
no_entry = negsuc 1

abbrev pub invalid : ℤ
invalid = negsuc 2

abbrev pub not_permitted : ℤ
not_permitted = negsuc 3

abbrev pub no_space : ℤ
no_space = negsuc 4

-- `ramfs_entry_t`
pub record Entry : Type 0 where
  pub path : List ℕ
  pub buffer : Option (List ℕ)
  pub size : ℕ
  pub kind : ℕ
  pub valid : Bool

abbrev pub null_entry : Entry
null_entry = record { path = []; buffer = none; size = 0; kind = 0; valid = false }

-- `s_root` of `ramfs_open`.
abbrev pub root_entry : Entry
root_entry = record { path = b'/' ∷ []; buffer = none; size = 0; kind = node_dir; valid = true }

-- `ramfs_file_t`
pub record File : Type 0 where
  pub entry : ℕ
  pub offset : ℕ

-- `entries` of a `ramfs_t` after `memset`, with `s_root` as the last one.
unfoldable pub blank : List Entry
blank = replicate ramfs_max_files null_entry ++ (root_entry ∷ [])

abbrev pub entry_at : ℕ → List Entry → Entry
entry_at i fs = get_or fs i null_entry

unfoldable pub ramfs_find : List ℕ → List Entry → Option ℕ
ramfs_find path fs = find_index (λ e. e.valid && str_eq e.path path) (take ramfs_max_files fs)

-- "if (!fs->entries[i].valid)" in the loops that look for a free entry.
unfoldable pub free_entry : List Entry → Option ℕ
free_entry fs = find_index (λ e. not e.valid) (take ramfs_max_files fs)

-- The first bytes of a buffer, and what it holds behind them.
abbrev pub copy_over : List ℕ → List ℕ → List ℕ
copy_over bytes buf = bytes ++ drop (length bytes) buf

-- The bytes are none for a null pointer.
abbrev pub filled : Option (List ℕ) → Option (List ℕ) → Option (List ℕ)
filled none buffer = buffer
filled (some bytes) none = none
filled (some bytes) (some buf) = some (copy_over bytes buf)

-- No memory, though there are bytes to store.
abbrev pub no_memory : Option (List ℕ) → ℕ → Bool
no_memory none size = ltb 0 size
no_memory (some buf) size = false

abbrev pub new_entry : List ℕ → Option (List ℕ) → ℕ → ℕ → Entry
new_entry path buffer size kind = record {
  path = take ramfs_name_len path;
  buffer = buffer;
  size = size;
  kind = kind;
  valid = true;
}

-- `buffer` (`data` in the source) has `size` bytes. An entry whose memory is refused keeps the path.
unfoldable pub ramfs_add_file :
    (ℕ → Option (List ℕ)) → List ℕ → Option (List ℕ) → ℕ → List Entry → Rc × List Entry
ramfs_add_file kmalloc path buffer size fs = elim (free_entry fs) [
  | none ↦ (fail, fs)
  | some i ↦
      if no_memory (kmalloc size) size
      then (
        fail,
        set fs i (record (entry_at i fs) { path = take ramfs_name_len path; buffer = none }),
      )
      else (ok, set fs i (new_entry path (filled buffer (kmalloc size)) size node_file))
]

unfoldable pub ramfs_add_dir : List ℕ → List Entry → Rc × List Entry
ramfs_add_dir path fs = elim (free_entry fs) [
  | none ↦ (fail, fs)
  | some i ↦ (ok, set fs i (new_entry path none 0 node_dir))
]

-- "Create a new empty file entry"
unfoldable pub create_empty : List ℕ → List Entry → Option ℕ × List Entry
create_empty path fs = elim (free_entry fs) [
  | none ↦ (none, fs)
  | some i ↦ (some i, set fs i (new_entry path none 0 node_file))
]

abbrev pub has_flag : ℕ → ℕ → Bool
has_flag flags f = not (bit_and flags f == 0)

-- The entry that is opened: one with the path, the root directory, or a new one.
unfoldable pub find_or_create : List ℕ → ℕ → List Entry → Option ℕ × List Entry
unfolding ramfs_find create_empty
find_or_create path flags fs = elim (ramfs_find path fs) [
  | some i ↦ (some i, fs)
  | none ↦
      if has_flag flags o_dir && str_eq path (b'/' ∷ [])
      then (some ramfs_max_files, fs)
      else if has_flag flags o_creat
      then create_empty path fs
      else (none, fs)
]

-- "Truncate if requested"
unfoldable pub truncate : ℕ → Entry → Entry
truncate flags e = elim e.buffer [
  | none ↦ e
  | some buf ↦
      if has_flag flags o_trunc && (e.kind == node_file)
      then record e { buffer = none; size = 0 }
      else e
]

-- `handle` says whether memory was found for the handle; the file stays truncated without.
unfoldable pub ramfs_open : Bool → List ℕ → ℕ → List Entry → Option File × List Entry
unfolding find_or_create truncate
ramfs_open handle path flags fs =
    let (found, fs1) = find_or_create path flags fs in
    elim found [
      | none ↦ (none, fs1)
      | some i ↦
          if ((entry_at i fs1).kind == node_dir) && not (has_flag flags o_dir)
          then (none, fs1)
          else (
            if handle then some (record { entry = i; offset = 0 }) else none,
            set fs1 i (truncate flags (entry_at i fs1)),
          )
    ]

abbrev pub bytes_of : Option (List ℕ) → List ℕ
bytes_of none = []
bytes_of (some buf) = buf

-- The bytes read, and the handle.
unfoldable pub ramfs_read : File → ℕ → List Entry → List ℕ × File
ramfs_read f n fs =
    let e = entry_at f.entry fs in
    if leb e.size f.offset
    then ([], f)
    else let count = min n (e.size - f.offset) in
      (take count (drop f.offset (bytes_of e.buffer)), record f { offset = f.offset + count })

-- `memcpy` of bytes to a place in a buffer.
unfoldable pub write_at : ℕ → List ℕ → List ℕ → List ℕ
write_at offset bytes buf = take offset buf ++ (bytes ++ drop (offset + length bytes) buf)

-- The old bytes are moved to a buffer for the new end.
unfoldable pub grow : (ℕ → Option (List ℕ)) → ℕ → Entry → Option Entry
grow kmalloc new_end e = if leb new_end e.size then some e else elim (kmalloc new_end) [
  | none ↦ none
  | some buf ↦
      some (record e {
        buffer = some (copy_over (take e.size (bytes_of e.buffer)) buf);
        size = new_end;
      })
]

-- The copy into the buffer that there is.
abbrev pub copy_in : File → List ℕ → ℕ → List Entry → Option Entry → ℤ × File × List Entry
copy_in f bytes new_end fs none = (no_space, f, fs)
copy_in f bytes new_end fs (some e) = (
  pos 0,
  record f { offset = new_end },
  set fs f.entry (record e {
    buffer = elim e.buffer [ none ↦ none | some buf ↦ some (write_at f.offset bytes buf) ];
  }),
)

unfoldable pub ramfs_write :
    (ℕ → Option (List ℕ)) → File → List ℕ → List Entry → ℤ × File × List Entry
unfolding grow write_at
ramfs_write kmalloc f bytes fs =
    let new_end = (f.offset + length bytes) % 2 ^ 64 in
    if ltb 0 (length bytes) && ltb new_end f.offset
    then (no_space, f, fs)
    else copy_in f bytes new_end fs (grow kmalloc new_end (entry_at f.entry fs))

-- Where `whence` and `off` point, as an `int64_t`; none for another `whence`.
unfoldable pub seek_target : ℕ → ℕ → ℤ → ℕ → Option ℤ
seek_target offset size off whence =
    if whence == seek_set
    then some off
    else if whence == seek_cur
    then some (wrap_signed 64 (wrap_signed 64 (pos offset) +ℤ off))
    else if whence == seek_end
    then some (wrap_signed 64 (wrap_signed 64 (pos size) +ℤ off))
    else none

abbrev pub seek_to : ℤ → ℕ → File → ℤ × File
seek_to (negsuc n) size f = (invalid, f)
seek_to (pos n) size f = if ltb size n then (invalid, f) else (pos n, record f { offset = n })

unfoldable pub ramfs_seek : File → ℤ → ℕ → List Entry → ℤ × File
unfolding seek_target
ramfs_seek f off whence fs = elim (seek_target f.offset (entry_at f.entry fs).size off whence) [
  | none ↦ (invalid, f)
  | some target ↦ seek_to target (entry_at f.entry fs).size f
]

-- Behind the last slash.
unfoldable pub base_name_from_path : List ℕ → List ℕ → List ℕ
base_name_from_path name [] = name
base_name_from_path name (c ∷ cs) =
    if c == b'/' then base_name_from_path cs cs else base_name_from_path name cs

-- The owner and the mode are not set; `out` is what the caller passes.
unfoldable pub ramfs_stat : List ℕ → StatInfo → List Entry → ℤ × StatInfo
unfolding ramfs_find base_name_from_path
ramfs_stat path out fs = elim (ramfs_find path fs) [
  | none ↦ (no_entry, out)
  | some i ↦
      let e = entry_at i fs in
      (
        pos 0,
        record out {
          size = wrap_signed 64 (pos e.size);
          kind = e.kind;
          mtime_ns = 0;
          name = base_name_from_path e.path e.path;
        },
      )
]

abbrev pub ramfs_unlink : List ℕ → ℤ
ramfs_unlink path = not_permitted

unfoldable pub ramfs_mkdir : List ℕ → List Entry → ℤ × List Entry
unfolding ramfs_add_dir
ramfs_mkdir path fs =
    let (added, fs1) = ramfs_add_dir path fs in
    elim added [ ok ↦ (pos 0, fs1) | fail ↦ (no_space, fs1) ]

-- "Create directory in /root; idempotent if already exists"
unfoldable pub ramfs_root_mkdir : List ℕ → List Entry → Rc × List Entry
unfolding ramfs_find ramfs_add_dir
ramfs_root_mkdir path fs = elim (ramfs_find path fs) [
  | some i ↦ (ok, fs)
  | none ↦ ramfs_add_dir path fs
]

-- An entry that exists gets the new bytes, whatever its kind is.
abbrev pub overwrite : Option (List ℕ) → Option (List ℕ) → ℕ → Entry → Entry
overwrite nb buffer size e = record e { buffer = filled buffer nb; size = size }

-- "Create or overwrite a file on the ramfs mounted at /"
unfoldable pub ramfs_root_writefile :
    (ℕ → Option (List ℕ)) → List ℕ → Option (List ℕ) → ℕ → List Entry → Rc × List Entry
unfolding ramfs_find ramfs_add_file
ramfs_root_writefile kmalloc path buffer size fs = elim (ramfs_find path fs) [
  | none ↦ ramfs_add_file kmalloc path buffer size fs
  | some i ↦
      let nb = if ltb 0 size then kmalloc size else none in
      if no_memory nb size
      then (fail, fs)
      else (ok, set fs i (overwrite nb buffer size (entry_at i fs)))
]
