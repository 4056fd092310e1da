-- ===== src/Usr/Db/Tests.antt =====
-- Runs of the user database.
use open_asd.Prelude.{ℕ, ◌≡◌, refl, ◌≢◌, ◌&&◌, Option, none, some, List, [], ◌∷◌, arith, ◌==◌}
use open_asd.Usr.Hash.{hash_bytes, round, rounds, pw_hash_salted}
use open_asd.Usr.Db.{
  User, Group, Db, usr_find_by_uid, grp_find_by_gid, usr_check_password, usr_set_password,
}
use open_asd.Usr.Db.Login.{may_login, set_password-check_password}
use open_asd.Prelude.Find.{find}

abbrev alice : User
alice = record {
  uid = 5;
  gid = 100;
  flags = 0;
  pw_hash = 0;
  pw_salt = 0;
  name = b'a' ∷ [];
  home = b'/' ∷ [];
  shell = [];
  groups = 2;
}

abbrev staff : Group
staff = record { gid = 7; name = b's' ∷ []; member_mask = 1 }

abbrev db : Db
db = record { users = record alice { uid = 4 } ∷ alice ∷ []; groups = staff ∷ [] }

abbrev secret : Option (List ℕ)
secret = some (97 ∷ 98 ∷ [])

secret_hash : pw_hash_salted secret 9 ≡ 16807024241874707972
unfolding pw_hash_salted hash_bytes rounds round
secret_hash = refl

found : usr_find_by_uid 5 db ≡ some alice
unfolding usr_find_by_uid find
found = refl

found_group : grp_find_by_gid 7 db ≡ some staff
unfolding grp_find_by_gid find
found_group = refl

set_password-check_password_example :
    (usr_check_password 5 secret (usr_set_password 9 5 secret db).1 ≡ may_login alice)
    × (usr_check_password 5 none (usr_set_password 9 5 secret db).1
        ≡ (may_login alice && (pw_hash_salted secret 9 == pw_hash_salted none 9)))
    × ((k : ℕ) (p : Option (List ℕ))
        → k ≢ 5
        → usr_check_password k p (usr_set_password 9 5 secret db).1 ≡ usr_check_password k p db)
set_password-check_password_example =
    set_password-check_password 9 5 secret none db alice found (λ e. omega (arith, secret_hash, e))
