-- ===== src/Usr/Perm/Tests.antt =====
-- Runs of the permission check.
use open_asd.Prelude.{◌≡◌, ok}
use open_asd.Usr.Perm.{usr_check_perm}
use open_asd.Usr.Perm.Grant.{usr_check_perm_lem, class_shift, granted}

-- A member of the file's group by a supplementary group may read a file of mode 0640.
usr_check_perm_lem_example : usr_check_perm 7 100 32 3 5 0o640 1 ≡ ok
unfolding class_shift granted
usr_check_perm_lem_example = usr_check_perm_lem 7 100 32 3 5 0o640 1
