-- ===== src/Vfs/Ramfs/Tests.antt =====
-- Runs of the file system in memory, and its theorems at a table of two entries.
use open_asd.Prelude.{
  ℕ, ◌^◌, ◌≡◌, refl, inr, true, ◌||◌, Option, none, some, List, [], ◌∷◌, arith, ok, ltb, ◌==◌, set,
  replicate, if◌then◌else◌,
}
use open_asd.Prelude.Int.{pos}
use open_asd.Prelude.Find.{find_index}
use open_asd.Vfs.Backend.{Dirent}
use open_asd.Vfs.Ramfs.{
  Entry, File, null_entry, root_entry, entry_at, node_file, write_at, free_entry, ramfs_read,
  ramfs_write, ramfs_root_writefile,
}
use open_asd.Vfs.Ramfs.Bytes.{contents, IsStored, write-read}
use open_asd.Vfs.Ramfs.Rewrite.{Holds, writefile-find}
use open_asd.Vfs.Ramfs.Listing.{
  ramfs_readdir, list_from, list_entry, name_in, add_name, last_slash, has_sub,
}

-- As `kmalloc` of kernel/mm/mm.c: nothing for 0 and for more than 1 GiB.
abbrev zeroed : ℕ → Option (List ℕ)
zeroed n = if (n == 0) || ltb (2 ^ 30) n then none else some (replicate n 0)

abbrev motd : Entry
motd = record {
  path = b'/' ∷ b'm' ∷ [];
  buffer = some (1 ∷ 2 ∷ 3 ∷ []);
  size = 3;
  kind = node_file;
  valid = true;
}

abbrev table : List Entry
table = motd ∷ null_entry ∷ []

-- From offset 2 on, beyond the end.
abbrev handle : File
handle = record { entry = 0; offset = 2 }

write-read_example :
    (fs' : List Entry) × (ramfs_write zeroed handle (7 ∷ 8 ∷ []) table
      ≡ (pos 0, record { entry = 0; offset = 4 }, fs'))
    × (contents (entry_at 0 fs') ≡ write_at 2 (7 ∷ 8 ∷ []) (1 ∷ 2 ∷ 3 ∷ []))
    × IsStored (entry_at 0 fs')
    × (fs' ≡ set table 0 (entry_at 0 fs'))
    × (ramfs_read handle 2 fs' ≡ (7 ∷ 8 ∷ [], record { entry = 0; offset = 4 }))
write-read_example =
    write-read zeroed handle (7 ∷ 8 ∷ []) table (λ grows. refl) (omega arith) refl (omega arith)
      (omega arith)

one_free : free_entry table ≡ some 1
unfolding free_entry find_index
one_free = refl

writefile-find_example :
    (fs' : List Entry) × (ramfs_root_writefile zeroed (b'/' ∷ b'x' ∷ []) (some (9 ∷ [])) 1 table
      ≡ (ok, fs'))
    × Holds (b'/' ∷ b'x' ∷ []) (9 ∷ []) table fs'
writefile-find_example =
    writefile-find zeroed (b'/' ∷ b'x' ∷ []) (9 ∷ []) table refl (omega arith) (inr (1, one_free))

abbrev deep : ℕ → Entry
deep c = record motd { path = b'/' ∷ b's' ∷ b'/' ∷ c ∷ [] }

abbrev no_dirent : Dirent
no_dirent = record { name = []; kind = 0; size = pos 0 }

-- Two files of one subdirectory give it two dirents.
listed_twice :
    (ramfs_readdir
      (record { entry = 2; offset = 0 })
      (no_dirent ∷ no_dirent ∷ no_dirent ∷ [])
      3
      (deep b'a' ∷ deep b'b' ∷ root_entry ∷ [])).1
    ≡ 2
unfolding ramfs_readdir list_from list_entry name_in add_name last_slash has_sub
listed_twice = refl
