-- ===== src/Vfs/Backend.antt =====
-- `vfs_ops_t` and `struct vfs_backend` of kernel/vfs/vfs.h. A backend is code behind function
-- pointers: `W` is the state that all of them share, `C` a context that is not null, and the first
-- argument after the state is the id of the backend that is called. A null pointer is none.
use open_asd.Prelude.{ℕ, Option, List}
use open_asd.Prelude.Int.{ℤ}

abbrev pub max_backends : ℕ
max_backends = 16

abbrev pub be_name_len : ℕ
be_name_len = 64

-- `stat_info_t`
pub record StatInfo : Type 0 where
  pub size : ℤ
  pub kind : ℕ
  pub mtime_ns : ℕ
  pub name : List ℕ
  pub uid : ℕ
  pub gid : ℕ
  pub mode : ℕ

-- `vfs_dirent_t`
pub record Dirent : Type 0 where
  pub name : List ℕ
  pub kind : ℕ
  pub size : ℤ

-- A read returns its code and the bytes, whose number is `*got`.
pub record Ops (W C : Type 0) : Type 0 where
  pub open_at : Option (W → ℕ → List ℕ → ℕ → Option C × W)
  pub close : Option (W → ℕ → C → W)
  pub read : Option (W → ℕ → C → ℕ → ℤ × List ℕ × W)
  pub write : Option (W → ℕ → C → List ℕ → ℤ × W)
  pub seek : Option (W → ℕ → C → ℤ → ℕ → ℤ × W)
  pub readdir : Option (W → ℕ → C → ℕ → ℤ × List Dirent × W)
  pub stat : Option (W → ℕ → List ℕ → ℤ × StatInfo × W)
  pub unlink : Option (W → ℕ → List ℕ → ℤ × W)
  pub mkdir : Option (W → ℕ → List ℕ → ℤ × W)

pub record Backend (W C : Type 0) : Type 0 where
  pub id : ℕ
  pub name : List ℕ
  pub mount_pt : List ℕ
  pub ops : Ops W C
  pub ctx : ℕ
