-- ===== src/Usr/Db/Login.antt =====
-- Passwords: `usr_set_password` and `usr_check_password` of kernel/usr/usr.c together.
use open_asd.Prelude.{
  ℕ, bit_and, ◌≡◌, refl, sym, ap, ◌∙◌, ◌≢◌, Bool, true, false, not, ◌&&◌, Option, none, some, List,
  arith, ◌==◌, if◌then◌else◌,
}
use open_asd.Usr.Hash.{pw_hash_salted}
use open_asd.Usr.Update.{option_map, find-update, find-update_ne}
use open_asd.Usr.Db.{
  User, Db, flag_locked, flag_nologin, no_password, when_found, usr_find_by_uid, usr_check_password,
  usr_set_password,
}

-- The answer of the check for a user that was found.
accepts : Option (List ℕ) → User → Bool
accepts password u =
    if not (bit_and u.flags flag_locked == 0)
    then false
    else if not (bit_and u.flags flag_nologin == 0)
    then false
    else if u.pw_hash == 0
    then no_password password
    else u.pw_hash == pw_hash_salted password u.pw_salt

of_found : Option (List ℕ) → Option User → Bool
of_found password none = false
of_found password (some u) = accepts password u

check-of_found :
    (uid : ℕ) (pw : Option (List ℕ)) (db : Db)
    → usr_check_password uid pw db ≡ of_found pw (usr_find_by_uid uid db)
unfolding usr_check_password accepts of_found
check-of_found uid pw db =
    elim (usr_find_by_uid uid db)
      as (λ o.
        elim o as (λ o. Bool) [
          | none ↦ false
          | some u ↦
              if not (bit_and u.flags flag_locked == 0)
              then false
              else if not (bit_and u.flags flag_nologin == 0)
              then false
              else if u.pw_hash == 0
              then no_password pw
              else u.pw_hash == pw_hash_salted pw u.pw_salt
        ]
        ≡ of_found pw o) [ none ↦ refl | some u ↦ refl ]

-- May the account log in at all.
unfoldable pub may_login : User → Bool
may_login u = (bit_and u.flags flag_locked == 0) && (bit_and u.flags flag_nologin == 0)

with_password : ℕ → Option (List ℕ) → User → User
with_password salt pw u = record u { pw_salt = salt; pw_hash = pw_hash_salted pw salt }

find-set_password :
    (salt uid : ℕ) (pw : Option (List ℕ)) (db : Db) (u : User)
    → usr_find_by_uid uid db ≡ some u
    → usr_find_by_uid uid (usr_set_password salt uid pw db).1 ≡ some (with_password salt pw u)
unfolding usr_set_password usr_find_by_uid with_password
find-set_password salt uid pw db u e = rw e (
    find-update (λ u. u.uid == uid) (with_password salt pw) db.users (λ u. refl)
    ∙ ap (option_map (with_password salt pw)) e)

unchanged :
    (o : Option User) (k : ℕ) (db changed : Db)
    → usr_find_by_uid k changed ≡ usr_find_by_uid k db
    → usr_find_by_uid k (when_found o db changed).1 ≡ usr_find_by_uid k db
unchanged none k db changed e = refl
unchanged (some u) k db changed e = e

find-set_password_ne :
    (salt uid other : ℕ) (pw : Option (List ℕ)) (db : Db)
    → other ≢ uid
    → usr_find_by_uid other (usr_set_password salt uid pw db).1 ≡ usr_find_by_uid other db
unfolding usr_set_password usr_find_by_uid with_password
find-set_password_ne salt uid other pw db ne = unchanged (usr_find_by_uid uid db) other db _ (
    find-update_ne (λ u. u.uid == uid) (with_password salt pw) (λ u. u.uid == other) (λ u. refl)
      db.users (λ u h. ground arith))

accepts-with_password :
    (salt : ℕ) (pw other : Option (List ℕ)) (u : User)
    → pw_hash_salted pw salt ≢ 0
    → accepts other (with_password salt pw u)
      ≡ (may_login u && (pw_hash_salted pw salt == pw_hash_salted other salt))
unfolding accepts with_password may_login
accepts-with_password salt pw other u ne = ground arith

-- After the password of a user has been set, a check with it succeeds exactly if the account is
-- neither locked nor barred from login (given that its hash is not 0, the value for "no password"),
-- a check with any other password answers whether the hashes agree, if the account may log in, and
-- the checks of all other users answer as before.
pub set_password-check_password :
    (salt uid : ℕ) (pw other : Option (List ℕ)) (db : Db) (u : User)
    → usr_find_by_uid uid db ≡ some u
    → pw_hash_salted pw salt ≢ 0
    → (usr_check_password uid pw (usr_set_password salt uid pw db).1 ≡ may_login u)
      × (usr_check_password uid other (usr_set_password salt uid pw db).1
          ≡ (may_login u && (pw_hash_salted pw salt == pw_hash_salted other salt)))
      × ((k : ℕ) (p : Option (List ℕ))
          → k ≢ uid
          → usr_check_password k p (usr_set_password salt uid pw db).1 ≡ usr_check_password k p db)
unfolding of_found
set_password-check_password salt uid pw other db u e ne = (
  checked pw
      ∙ ap (λ b. may_login u && b) (==_refl (pw_hash_salted pw salt))
      ∙ &&_true (may_login u),
  checked other,
  λ k p k_ne.
      check-of_found k p (usr_set_password salt uid pw db).1
      ∙ ap (of_found p) (find-set_password_ne salt uid k pw db k_ne)
      ∙ sym (check-of_found k p db),
)
  where
    checked :
        (p : Option (List ℕ))
        → usr_check_password uid p (usr_set_password salt uid pw db).1
          ≡ (may_login u && (pw_hash_salted pw salt == pw_hash_salted p salt))
    checked p =
        check-of_found uid p (usr_set_password salt uid pw db).1
        ∙ ap (of_found p) (find-set_password salt uid pw db u e)
        ∙ accepts-with_password salt pw p u ne

    &&_true : (b : Bool) → (b && true) ≡ b
    &&_true b = ground arith

    ==_refl : (n : ℕ) → (n == n) ≡ true
    ==_refl n = ground arith
