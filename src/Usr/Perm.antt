-- ===== src/Usr/Perm.antt =====
-- kernel/usr/usr.c, `usr_check_perm`: may a process access a file.
pub mod Grant
mod Tests
use open_asd.Prelude.{
  ℕ, ◌^◌, bit_and, bit_or, Bool, not, ◌&&◌, ◌||◌, Rc, ok, fail, ltb, ◌==◌, if◌then◌else◌,
}

-- The mode bits of usr.h.
abbrev pub mode_rusr : ℕ
mode_rusr = 0o400

abbrev pub mode_wusr : ℕ
mode_wusr = 0o200

abbrev pub mode_xusr : ℕ
mode_xusr = 0o100

abbrev pub mode_rgrp : ℕ
mode_rgrp = 0o040

abbrev pub mode_wgrp : ℕ
mode_wgrp = 0o020

abbrev pub mode_xgrp : ℕ
mode_xgrp = 0o010

abbrev pub mode_roth : ℕ
mode_roth = 0o004

abbrev pub mode_woth : ℕ
mode_woth = 0o002

abbrev pub mode_xoth : ℕ
mode_xoth = 0o001

abbrev pub access_read : ℕ
access_read = 1

abbrev pub access_write : ℕ
access_write = 2

abbrev pub access_exec : ℕ
access_exec = 4

-- The three lines `if (access_flags & …) need |= …;` of a class, for its three mode bits.
unfoldable pub needed : ℕ → ℕ → ℕ → ℕ → ℕ
needed flags r w x =
    let n1 = if bit_and flags access_read == 0 then 0 else r in
    let n2 = if bit_and flags access_write == 0 then n1 else bit_or n1 w in
    if bit_and flags access_exec == 0 then n2 else bit_or n2 x

-- `groups & (1u << file_gid)`
unfoldable pub in_groups : ℕ → ℕ → Bool
in_groups groups gid = ltb gid 32 && not (bit_and groups (2 ^ gid) == 0)

unfoldable pub usr_check_perm : ℕ → ℕ → ℕ → ℕ → ℕ → ℕ → ℕ → Rc
usr_check_perm uid gid groups file_uid file_gid file_mode flags =
    if uid == 0
    then ok
    else let need =
        if uid == file_uid
        then needed flags mode_rusr mode_wusr mode_xusr
        else if (gid == file_gid) || in_groups groups file_gid
        then needed flags mode_rgrp mode_wgrp mode_xgrp
        else needed flags mode_roth mode_woth mode_xoth in
      if bit_and file_mode need == need then ok else fail
