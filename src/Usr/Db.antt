-- ===== src/Usr/Db.antt =====
-- kernel/usr/usr.c: the tables of users and groups. A user or group is found by the first entry
-- that matches; a change through the pointer found is a write to that entry. The array slots past
-- the counters are never read.
pub mod Valid
pub mod Keeps
pub mod Membership
pub mod Login
mod Tests
use open_asd.Prelude.{
  ℕ, ◌-◌, bit_and, Bool, true, false, not, ◌&&◌, ◌||◌, Option, none, some, List, [], ◌∷◌, ◌++◌, Rc,
  ok, fail, ltb, leb, ◌==◌, str_eq, length, get_elem?, take, if◌then◌else◌,
}
use open_asd.Prelude.Find.{find, find_index}
use open_asd.Usr.Hash.{pw_hash_salted}
use open_asd.Usr.Mask.{set_bit, clear_bit}
use open_asd.Usr.Update.{update}

abbrev pub usr_max_users : ℕ
usr_max_users = 64

abbrev pub usr_max_groups : ℕ
usr_max_groups = 32

abbrev pub usr_name_len : ℕ
usr_name_len = 32

abbrev pub usr_home_len : ℕ
usr_home_len = 64

abbrev pub usr_shell_len : ℕ
usr_shell_len = 64

abbrev pub gid_wheel : ℕ
gid_wheel = 1

abbrev pub gid_users : ℕ
gid_users = 100

-- USR_FLAG_WHEEL, USR_FLAG_NOLOGIN, USR_FLAG_LOCKED
abbrev pub flag_wheel : ℕ
flag_wheel = 1

abbrev pub flag_nologin : ℕ
flag_nologin = 2

abbrev pub flag_locked : ℕ
flag_locked = 4

-- `asd_user_t`
pub record User : Type 0 where
  pub uid : ℕ
  pub gid : ℕ
  pub flags : ℕ
  pub pw_hash : ℕ
  pub pw_salt : ℕ
  pub name : List ℕ
  pub home : List ℕ
  pub shell : List ℕ
  pub groups : ℕ

-- `asd_group_t`
pub record Group : Type 0 where
  pub gid : ℕ
  pub name : List ℕ
  pub member_mask : ℕ

-- `g_users` up to `g_user_count`, and `g_groups` up to `g_group_count`.
pub record Db : Type 0 where
  pub users : List User
  pub groups : List Group

-- `u_strncpy` into an array of `n` bytes.
abbrev pub strncpy : ℕ → List ℕ → List ℕ
strncpy n s = take (n - 1) s

unfoldable pub grp_find_by_gid : ℕ → Db → Option Group
grp_find_by_gid gid db = find (λ g. g.gid == gid) db.groups

unfoldable pub grp_find_by_name : List ℕ → Db → Option Group
grp_find_by_name name db = find (λ g. str_eq g.name name) db.groups

abbrev pub is_some {ℓ} : {A : Type ℓ} → Option A → Bool
is_some none = false
is_some (some a) = true

unfoldable pub grp_add : ℕ → List ℕ → Db → Rc × Db
grp_add gid name db =
    if leb usr_max_groups (length db.groups)
    then (fail, db)
    else if is_some (grp_find_by_gid gid db) || is_some (grp_find_by_name name db)
    then (fail, db)
    else (
      ok,
      record db {
        groups =
            db.groups
            ++ (record { gid = gid; name = strncpy usr_name_len name; member_mask = 0 } ∷ []);
      },
    )

unfoldable pub usr_find_by_uid : ℕ → Db → Option User
usr_find_by_uid uid db = find (λ u. u.uid == uid) db.users

unfoldable pub usr_find_by_name : List ℕ → Db → Option User
usr_find_by_name name db = find (λ u. str_eq u.name name) db.users

-- `member_mask |= (1u << uid)` of the group found.
unfoldable pub add_member : ℕ → ℕ → List Group → List Group
unfolding update
add_member uid gid =
    update (λ g. g.gid == gid) (λ g. record g { member_mask = set_bit g.member_mask uid })

unfoldable pub remove_member : ℕ → ℕ → List Group → List Group
unfolding update
remove_member uid gid =
    update (λ g. g.gid == gid) (λ g. record g { member_mask = clear_bit g.member_mask uid })

abbrev pub change_user : ℕ → (User → User) → List User → List User
change_user uid = update (λ u. u.uid == uid)

-- "/" and "/bin/asdsh"
abbrev pub root_dir : List ℕ
root_dir = b'/' ∷ []

abbrev pub asdsh : List ℕ
asdsh = b'/' ∷ b'b' ∷ b'i' ∷ b'n' ∷ b'/' ∷ b'a' ∷ b's' ∷ b'd' ∷ b's' ∷ b'h' ∷ []

abbrev pub or_default : Option (List ℕ) → List ℕ → List ℕ
or_default none d = d
or_default (some s) d = s

-- The new entry of `usr_add`.
unfoldable pub new_user :
    ℕ → ℕ → ℕ → List ℕ → Option (List ℕ) → ℕ → Option (List ℕ) → Option (List ℕ) → User
new_user salt uid gid name password flags home shell =
    let primary = if ltb gid usr_max_groups then set_bit 0 gid else 0 in
    record {
      uid = uid;
      gid = gid;
      flags = flags;
      pw_hash = pw_hash_salted password salt;
      pw_salt = salt;
      name = strncpy usr_name_len name;
      home = strncpy usr_home_len (or_default home root_dir);
      shell = strncpy usr_shell_len (or_default shell asdsh);
      groups = if bit_and flags flag_wheel == 0 then primary else set_bit primary gid_wheel;
    }

-- `name` is not null: the code has compared it with every name before it tests that.
unfoldable pub usr_add :
    ℕ → ℕ → ℕ → List ℕ → Option (List ℕ) → ℕ → Option (List ℕ) → Option (List ℕ) → Db → Rc × Db
usr_add salt uid gid name password flags home shell db =
    if leb usr_max_users (length db.users)
    then (fail, db)
    else if is_some (usr_find_by_uid uid db) || is_some (usr_find_by_name name db)
    then (fail, db)
    else if str_eq name []
    then (fail, db)
    else let gs = if ltb uid 32 then add_member uid gid db.groups else db.groups in
      let gs' =
        if ltb uid 32 && not (bit_and flags flag_wheel == 0)
        then add_member uid gid_wheel gs
        else gs in
      (
        ok,
        record {
          users = db.users ++ (new_user salt uid gid name password flags home shell ∷ []);
          groups = gs';
        },
      )

-- `if (!u) return -1; … return 0;`
abbrev pub when_found : Option User → Db → Db → Rc × Db
when_found none db changed = (fail, db)
when_found (some u) db changed = (ok, changed)

unfoldable pub usr_add_to_group : ℕ → ℕ → Db → Rc × Db
usr_add_to_group uid gid db = when_found (usr_find_by_uid uid db) db (record {
  users =
      if ltb gid usr_max_groups
      then change_user uid (λ u. record u { groups = set_bit u.groups gid }) db.users
      else db.users;
  groups = if ltb uid 32 then add_member uid gid db.groups else db.groups;
})

unfoldable pub usr_remove_from_group : ℕ → ℕ → Db → Rc × Db
usr_remove_from_group uid gid db = when_found (usr_find_by_uid uid db) db (record {
  users =
      if ltb gid usr_max_groups
      then change_user uid (λ u. record u { groups = clear_bit u.groups gid }) db.users
      else db.users;
  groups = if ltb uid 32 then remove_member uid gid db.groups else db.groups;
})

unfoldable pub usr_is_wheel : ℕ → Db → Bool
usr_is_wheel uid db = if uid == 0 then true else elim (usr_find_by_uid uid db) [
  | none ↦ false
  | some u ↦ not (bit_and u.flags flag_wheel == 0)
]

abbrev pub no_password : Option (List ℕ) → Bool
no_password none = true
no_password (some p) = str_eq p []

unfoldable pub usr_check_password : ℕ → Option (List ℕ) → Db → Bool
usr_check_password uid password db = elim (usr_find_by_uid uid db) [
  | none ↦ false
  | some u ↦
      if not (bit_and u.flags flag_locked == 0)
      then false
      else if not (bit_and u.flags flag_nologin == 0)
      then false
      else if u.pw_hash == 0
      then no_password password
      else u.pw_hash == pw_hash_salted password u.pw_salt
]

unfoldable pub usr_set_password : ℕ → ℕ → Option (List ℕ) → Db → Rc × Db
usr_set_password salt uid password db = when_found (usr_find_by_uid uid db) db (record db {
  users =
      change_user uid (λ u. record u { pw_salt = salt; pw_hash = pw_hash_salted password salt })
        db.users;
})

-- The enumeration calls.
unfoldable pub usr_count : Db → ℕ
usr_count db = length db.users

unfoldable pub usr_get : ℕ → Db → Option User
usr_get index db = get_elem? db.users index

unfoldable pub grp_count : Db → ℕ
grp_count db = length db.groups

unfoldable pub grp_get : ℕ → Db → Option Group
grp_get index db = get_elem? db.groups index

-- "root", "wheel", "users" and "/root".
abbrev pub root_name : List ℕ
root_name = b'r' ∷ b'o' ∷ b'o' ∷ b't' ∷ []

abbrev pub wheel_name : List ℕ
wheel_name = b'w' ∷ b'h' ∷ b'e' ∷ b'e' ∷ b'l' ∷ []

abbrev pub users_name : List ℕ
users_name = b'u' ∷ b's' ∷ b'e' ∷ b'r' ∷ b's' ∷ []

unfoldable pub usr_init : ℕ → Db
unfolding grp_add usr_add
usr_init salt =
    let db1 = (grp_add 0 root_name (record { users = []; groups = [] })).1 in
    let db2 = (grp_add gid_wheel wheel_name db1).1 in
    let db3 = (grp_add gid_users users_name db2).1 in
    let db4 =
      (usr_add salt 0 0 root_name (some []) 0 (some (b'/' ∷ root_name)) (some asdsh) db3).1 in
    record db4 { users = change_user 0 (λ u. record u { pw_hash = 0; pw_salt = 0 }) db4.users }
