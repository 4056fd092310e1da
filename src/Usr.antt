-- ===== src/Usr.antt =====
-- kernel/usr/usr.c and usr.h: users, groups, passwords and file permissions. The two arrays with
-- their counters are lists. `salt` is what `entropy_get64` returns.
pub mod Hash
pub mod Perm
pub mod Mask
pub mod Update
pub mod Db
pub mod Passwd
