-- ===== src/Usr/Db/Keeps.antt =====
-- Every call of kernel/usr/usr.c on the tables keeps them free of duplicates and within bounds.
use open_asd.Prelude.{
  ℕ, ◌<◌, bit_and, ◌≡◌, refl, ap, ◌∙◌, inl, inr, Bool, false, not, ◌&&◌, ◌||◌, Option, none, some,
  List, [], ◌∷◌, ◌++◌, arith, ltb, leb, ◌==◌, str_eq, Bool-cases, length, take, take_all,
  if◌then◌else◌,
}
use open_asd.Prelude.Find.{find, count}
use open_asd.Usr.Db.{
  User, new_user, Group, Db, flag_wheel, gid_wheel, gid_users, usr_max_users, usr_max_groups,
  usr_name_len, root_name, wheel_name, users_name, asdsh, is_some, when_found, grp_find_by_gid,
  grp_find_by_name, grp_add, usr_find_by_uid, usr_find_by_name, add_member, usr_add,
  usr_add_to_group, usr_remove_from_group, usr_set_password, usr_init,
}
use open_asd.Usr.Db.Valid.{
  IsValid, UsersValid, GroupsValid, uid_is, user_named, gid_is, group_named, is_some-none, if_both,
  GroupsValid-snoc, UsersValid-snoc, update-UsersValid, add_member-GroupsValid,
  remove_member-GroupsValid,
}

neither : {a b : Bool} → (a || b) ≡ false → (a ≡ false) × (b ≡ false)
neither h = ground arith

short_name : (name : List ℕ) → length name < usr_name_len → take 31 name ≡ name
short_name name short = take_all 31 name (omega arith)

pub grp_add-IsValid :
    (gid : ℕ) (name : List ℕ) (db : Db)
    → length name < usr_name_len
    → IsValid db
    → IsValid (grp_add gid name db).1
unfolding grp_add grp_find_by_gid grp_find_by_name IsValid gid_is group_named
grp_add-IsValid gid name db short v = elim (Bool-cases (leb usr_max_groups (length db.groups))) [
  | inl full ↦ rw full v
  | inr room ↦
      elim (Bool-cases (is_some (grp_find_by_gid gid db) || is_some (grp_find_by_name name db))) [
        | inl taken ↦ rw (room, taken) v
        | inr new ↦ rw (room, new) (v.0, added room (neither new))
      ]
]
  where
    added :
        leb usr_max_groups (length db.groups) ≡ false
        → (is_some (grp_find_by_gid gid db) ≡ false) × (is_some (grp_find_by_name name db) ≡ false)
        → GroupsValid
            (db.groups ++ (record { gid = gid; name = take 31 name; member_mask = 0 } ∷ []))
    added room new =
        GroupsValid-snoc db.groups _ v.1 (ground arith) (is_some-none _ new.0)
          (ap (λ n. find (group_named n) db.groups) (short_name name short) ∙ is_some-none _ new.1)

pub usr_add-IsValid :
    (salt uid gid : ℕ) (name : List ℕ) (password : Option (List ℕ)) (flags : ℕ)
    (home shell : Option (List ℕ)) (db : Db)
    → length name < usr_name_len
    → IsValid db
    → IsValid (usr_add salt uid gid name password flags home shell db).1
unfolding usr_add usr_find_by_uid usr_find_by_name IsValid uid_is user_named new_user
usr_add-IsValid salt uid gid name password flags home shell db short v =
    elim (Bool-cases (leb usr_max_users (length db.users))) [
      | inl full ↦ rw full v
      | inr room ↦
          elim (Bool-cases
            (is_some (usr_find_by_uid uid db) || is_some (usr_find_by_name name db))) [
              | inl taken ↦ rw (room, taken) v
              | inr new ↦ elim (Bool-cases (str_eq name [])) [
                | inl empty ↦ rw (room, new, empty) v
                | inr named ↦ rw (room, new, named) (added room (neither new), masks)
              ]
            ]
    ]
  where
    added :
        leb usr_max_users (length db.users) ≡ false
        → (is_some (usr_find_by_uid uid db) ≡ false) × (is_some (usr_find_by_name name db) ≡ false)
        → UsersValid (db.users ++ (new_user salt uid gid name password flags home shell ∷ []))
    added room new =
        UsersValid-snoc db.users _ v.0 (ground arith) (is_some-none _ new.0)
          (ap (λ n. find (user_named n) db.users) (short_name name short) ∙ is_some-none _ new.1)

    gs : List Group
    gs = if ltb uid 32 then add_member uid gid db.groups else db.groups

    masks : GroupsValid (
        if ltb uid 32 && not (bit_and flags flag_wheel == 0)
        then add_member uid gid_wheel gs
        else gs)
    masks = if_both GroupsValid _ (add_member-GroupsValid uid gid_wheel gs first) first
      where
        first : GroupsValid gs
        first = if_both GroupsValid (ltb uid 32) (add_member-GroupsValid uid gid db.groups v.1) v.1

when_found-IsValid :
    (o : Option User) (db changed : Db)
    → IsValid db
    → IsValid changed
    → IsValid (when_found o db changed).1
when_found-IsValid none db changed v w = v
when_found-IsValid (some u) db changed v w = w

pub usr_add_to_group-IsValid :
    (uid gid : ℕ) (db : Db) → IsValid db → IsValid (usr_add_to_group uid gid db).1
unfolding usr_add_to_group IsValid
usr_add_to_group-IsValid uid gid db v = when_found-IsValid (usr_find_by_uid uid db) db _ v (
  if_both UsersValid (ltb gid usr_max_groups)
      (update-UsersValid _ _ db.users (λ u. (refl, refl)) v.0) v.0,
  if_both GroupsValid (ltb uid 32) (add_member-GroupsValid uid gid db.groups v.1) v.1,
)

pub usr_remove_from_group-IsValid :
    (uid gid : ℕ) (db : Db) → IsValid db → IsValid (usr_remove_from_group uid gid db).1
unfolding usr_remove_from_group IsValid
usr_remove_from_group-IsValid uid gid db v = when_found-IsValid (usr_find_by_uid uid db) db _ v (
  if_both UsersValid (ltb gid usr_max_groups)
      (update-UsersValid _ _ db.users (λ u. (refl, refl)) v.0) v.0,
  if_both GroupsValid (ltb uid 32) (remove_member-GroupsValid uid gid db.groups v.1) v.1,
)

pub usr_set_password-IsValid :
    (salt uid : ℕ) (password : Option (List ℕ)) (db : Db)
    → IsValid db
    → IsValid (usr_set_password salt uid password db).1
unfolding usr_set_password IsValid
usr_set_password-IsValid salt uid password db v =
    when_found-IsValid (usr_find_by_uid uid db) db _ v
      (update-UsersValid _ _ db.users (λ u. (refl, refl)) v.0, v.1)

empty-IsValid : IsValid (record { users = []; groups = [] })
unfolding IsValid count
empty-IsValid = (
  record { users_bound = omega arith; uid_once = λ k. omega arith; name_once = λ n. omega arith },
  record {
    groups_bound = omega arith;
    gid_once = λ k. omega arith;
    group_name_once = λ n. omega arith;
  },
)

pub usr_init-IsValid : (salt : ℕ) → IsValid (usr_init salt)
unfolding usr_init IsValid
usr_init-IsValid salt =
    let v1 = grp_add-IsValid 0 root_name _ (omega arith) empty-IsValid in
    let v2 = grp_add-IsValid gid_wheel wheel_name _ (omega arith) v1 in
    let v3 = grp_add-IsValid gid_users users_name _ (omega arith) v2 in
    let v4 =
      usr_add-IsValid salt 0 0 root_name (some []) 0 (some (b'/' ∷ root_name)) (some asdsh) _
        (omega arith) v3 in
    (update-UsersValid _ _ _ (λ u. (refl, refl)) v4.0, v4.1)
