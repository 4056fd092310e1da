-- ===== src/Vfs/Path/Tests.antt =====
-- Runs of `vfs_canonicalize`.
use open_asd.Prelude.{ℕ, ◌≤◌, ◌<◌, ◌≡◌, refl, true, some, List, [], ◌∷◌, arith, length}
use open_asd.Vfs.Path.{slash, skip_slashes, take_seg, handle_seg, walk, rebuild, vfs_canonicalize}
use open_asd.Vfs.Path.Canonical.{join, all_names, vfs_canonicalize_lem}
use open_asd.Vfs.Path.Stable.{vfs_canonicalize-vfs_canonicalize}
use open_asd.Vfs.Path.Resolve.{resolve, canonicalize-resolve}

-- "/b/../e/./p"
abbrev path : List ℕ
path = b'/' ∷ b'b' ∷ b'/' ∷ b'.' ∷ b'.' ∷ b'/' ∷ b'e' ∷ b'/' ∷ b'.' ∷ b'/' ∷ b'p' ∷ []

-- "/e/p"
abbrev resolved : List ℕ
resolved = b'/' ∷ b'e' ∷ b'/' ∷ b'p' ∷ []

run_path : vfs_canonicalize (some path) 256 ≡ some resolved
unfolding vfs_canonicalize skip_slashes take_seg handle_seg walk rebuild
run_path = refl

vfs_canonicalize_lem_example :
    (ss : List (List ℕ)) × (resolved ≡ slash ∷ join ss)
    × (all_names ss ≡ true)
    × (length ss ≤ 127)
    × (2 ≤ 256 → length resolved < 256)
vfs_canonicalize_lem_example = vfs_canonicalize_lem path 256 resolved run_path

vfs_canonicalize-vfs_canonicalize_example : vfs_canonicalize (some resolved) 256 ≡ some resolved
vfs_canonicalize-vfs_canonicalize_example =
    vfs_canonicalize-vfs_canonicalize path 256 resolved (omega arith) (omega arith) run_path

canonicalize-resolve_example : resolved ≡ slash ∷ join (resolve path)
canonicalize-resolve_example = canonicalize-resolve path 256 resolved run_path
