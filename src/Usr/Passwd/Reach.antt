-- ===== src/Usr/Passwd/Reach.antt =====
-- The tables of users and groups that the calls of kernel/usr/usr.c lead to, the loading of files
-- included.
use open_asd.Prelude.{
  ℕ, zero, suc, ◌+◌, ◌-◌, ◌%◌, ◌^◌, ◌≤◌, ◌<◌, refl, inl, inr, Option, none, some, List, [], ◌∷◌,
  arith, ◌==◌, Bool-cases, length,
}
use open_asd.Usr.Db.{
  Db, usr_name_len, is_some, usr_init, grp_add, usr_add, usr_add_to_group, usr_remove_from_group,
  usr_set_password, grp_find_by_gid,
}
use open_asd.Usr.Db.Valid.{IsValid, if_both, update-UsersValid}
use open_asd.Usr.Db.Keeps.{
  grp_add-IsValid, usr_add-IsValid, usr_add_to_group-IsValid, usr_remove_from_group-IsValid,
  usr_set_password-IsValid, usr_init-IsValid,
}
use open_asd.Usr.Passwd.{
  u_isspace, u_atou, skip_ws, take_tok, read_tok, Fields, read_fields, unknown_name, unless_empty,
  word_flag, apply_hash, field_uid, field_gid, ensure_group, ensure_user, add_fields, read_line,
  resume, load_from, usr_load_passwd, read_group, add_group, resume_group, load_groups,
  usr_load_group,
}

length-taken : (n : ℕ) (p : List ℕ) → length (take_tok n p).0 ≤ n
unfolding take_tok
length-taken zero p = omega arith
length-taken (suc n) [] = omega arith
length-taken (suc n) (c ∷ cs) = elim (Bool-cases (u_isspace c)) [
  | inl space ↦ rw space (omega arith)
  | inr plain ↦ rw plain (omega (arith, length-taken n cs))
]

-- The name that is read fits the array for a name.
length-name : (p : List ℕ) → length (read_tok usr_name_len p).0 < usr_name_len
unfolding read_tok
length-name p = omega (arith, length-taken 31 (skip_ws p))

length-field_name : (p : List ℕ) → length (read_fields p).0.name < usr_name_len
unfolding read_fields
length-field_name p = length-name p

add_group-IsValid :
    (gid : ℕ) (name : List ℕ) (db : Db)
    → length name < usr_name_len
    → IsValid db
    → IsValid (add_group gid name db)
unfolding add_group
add_group-IsValid gid name db short v =
    if_both IsValid (is_some (grp_find_by_gid gid db)) v (grp_add-IsValid gid name db short v)

ensure_group-IsValid : (gid : ℕ) (db : Db) → IsValid db → IsValid (ensure_group gid db)
unfolding ensure_group
ensure_group-IsValid gid db v =
    if_both IsValid (is_some (grp_find_by_gid gid db)) v
      (grp_add-IsValid gid unknown_name db (omega arith) v)

add_fields-IsValid :
    (salt : ℕ) (f : Fields) (db : Db)
    → length f.name < usr_name_len
    → IsValid db
    → IsValid (add_fields salt f db)
unfolding add_fields ensure_user IsValid apply_hash
add_fields-IsValid salt f db short v = (update-UsersValid _ _ _ (λ u. (refl, refl)) both.0, both.1)
  where
    grouped : IsValid (ensure_group (field_gid f) db)
    grouped = ensure_group-IsValid (field_gid f) db v

    both : IsValid (ensure_user salt f (ensure_group (field_gid f) db))
    both = if_both IsValid _ grouped (
        usr_add-IsValid salt (field_uid f) (field_gid f) f.name (some []) (word_flag f.flags_s)
          (unless_empty f.home) (unless_empty f.shell) _ short grouped)

field_name : Option (Option Fields × List ℕ) → List ℕ
field_name none = []
field_name (some (none, rest)) = []
field_name (some (some f, rest)) = f.name

length-line_name :
    (behind : ℕ) (p : List ℕ) (loaded : ℕ)
    → length (field_name (read_line behind p loaded)) < usr_name_len
unfolding read_line field_name
length-line_name behind p loaded = ground (arith, length-field_name (skip_ws p))

resume-IsValid :
    (salts : ℕ → ℕ) (loop : List ℕ → ℕ → Db → ℕ × Db)
    → ((p : List ℕ) (k : ℕ) (d : Db) → IsValid d → IsValid (loop p k d).1)
    → (o : Option (Option Fields × List ℕ)) (loaded : ℕ) (db : Db)
    → length (field_name o) < usr_name_len
    → IsValid db
    → IsValid (resume salts loop o loaded db).1
unfolding field_name
resume-IsValid salts loop next none loaded db short v = v
resume-IsValid salts loop next (some (none, rest)) loaded db short v = next rest loaded db v
resume-IsValid salts loop next (some (some f, rest)) loaded db short v =
    next rest (loaded + 1) _ (add_fields-IsValid (salts loaded) f db short v)

load_from-IsValid :
    (n : ℕ) (salts : ℕ → ℕ) (behind : ℕ) (p : List ℕ) (loaded : ℕ) (db : Db)
    → IsValid db
    → IsValid (load_from n salts behind p loaded db).1
unfolding load_from
load_from-IsValid zero salts behind p loaded db v = v
load_from-IsValid (suc n) salts behind p loaded db v =
    resume-IsValid salts (load_from n salts behind) (load_from-IsValid n salts behind)
      (read_line behind p loaded) loaded db (length-line_name behind p loaded) v

usr_load_passwd-IsValid :
    (salts : ℕ → ℕ) (buf : List ℕ) (len : ℕ) (db : Db)
    → IsValid db
    → IsValid (usr_load_passwd salts buf len db).1
unfolding usr_load_passwd
usr_load_passwd-IsValid salts buf len db v = elim (Bool-cases (len == 0)) [
  | inl nothing ↦ rw nothing v
  | inr more ↦ rw more (load_from-IsValid (length buf) salts (length buf - len) buf 0 db v)
]

group_name : Option (Option (List ℕ × List ℕ) × List ℕ) → List ℕ
group_name none = []
group_name (some (none, rest)) = []
group_name (some (some g, rest)) = g.0

length-group_name :
    (behind : ℕ) (p : List ℕ) → length (group_name (read_group behind p)) < usr_name_len
unfolding read_group group_name
length-group_name behind p = ground (arith, length-name (skip_ws p))

resume_group-IsValid :
    (loop : List ℕ → ℕ → Db → ℕ × Db)
    → ((p : List ℕ) (k : ℕ) (d : Db) → IsValid d → IsValid (loop p k d).1)
    → (o : Option (Option (List ℕ × List ℕ) × List ℕ)) (loaded : ℕ) (db : Db)
    → length (group_name o) < usr_name_len
    → IsValid db
    → IsValid (resume_group loop o loaded db).1
unfolding group_name
resume_group-IsValid loop next none loaded db short v = v
resume_group-IsValid loop next (some (none, rest)) loaded db short v = next rest loaded db v
resume_group-IsValid loop next (some ((some (name, gid_s)), rest)) loaded db short v =
    next rest (loaded + 1) _ (add_group-IsValid (u_atou gid_s % 2 ^ 16) name db short v)

load_groups-IsValid :
    (n behind : ℕ) (p : List ℕ) (loaded : ℕ) (db : Db)
    → IsValid db
    → IsValid (load_groups n behind p loaded db).1
unfolding load_groups
load_groups-IsValid zero behind p loaded db v = v
load_groups-IsValid (suc n) behind p loaded db v =
    resume_group-IsValid (load_groups n behind) (load_groups-IsValid n behind) (read_group behind p)
      loaded db (length-group_name behind p) v

usr_load_group-IsValid :
    (buf : List ℕ) (len : ℕ) (db : Db) → IsValid db → IsValid (usr_load_group buf len db).1
unfolding usr_load_group
usr_load_group-IsValid buf len db v = elim (Bool-cases (len == 0)) [
  | inl nothing ↦ rw nothing v
  | inr more ↦ rw more (load_groups-IsValid (length buf) (length buf - len) buf 0 db v)
]

-- The states that the calls of usr.c lead to, the names that callers pass being shorter than the array
-- for them.
pub data Reachable : Db → Type 0 where
  init : (salt : ℕ) → Reachable (usr_init salt)
  new_group :
      (gid : ℕ) (name : List ℕ) {db : Db}
      → length name < usr_name_len
      → Reachable db
      → Reachable (grp_add gid name db).1
  add_user :
      (salt uid gid : ℕ) (name : List ℕ) (password : Option (List ℕ)) (flags : ℕ)
      (home shell : Option (List ℕ)) {db : Db}
      → length name < usr_name_len
      → Reachable db
      → Reachable (usr_add salt uid gid name password flags home shell db).1
  join : (uid gid : ℕ) {db : Db} → Reachable db → Reachable (usr_add_to_group uid gid db).1
  leave : (uid gid : ℕ) {db : Db} → Reachable db → Reachable (usr_remove_from_group uid gid db).1
  password :
      (salt uid : ℕ) (pw : Option (List ℕ)) {db : Db}
      → Reachable db
      → Reachable (usr_set_password salt uid pw db).1
  load_users :
      (salts : ℕ → ℕ) (buf : List ℕ) (len : ℕ) {db : Db}
      → Reachable db
      → Reachable (usr_load_passwd salts buf len db).1
  load_group :
      (buf : List ℕ) (len : ℕ) {db : Db} → Reachable db → Reachable (usr_load_group buf len db).1

-- From the initial tables on, through any sequence of calls that add groups and users whose names
-- have fewer than 32 bytes, change memberships, set passwords and load passwd and group files of
-- any bytes, there are at most 64 users and 32 groups, and no two users, and no two groups, have one
-- id or one name.
pub Reachable-IsValid : (db : Db) → Reachable db → IsValid db
Reachable-IsValid db (init salt) = usr_init-IsValid salt
Reachable-IsValid db (new_group gid name short r) =
    grp_add-IsValid gid name _ short (Reachable-IsValid _ r)
Reachable-IsValid db (add_user salt uid gid name pw flags home shell short r) =
    usr_add-IsValid salt uid gid name pw flags home shell _ short (Reachable-IsValid _ r)
Reachable-IsValid db (join uid gid r) = usr_add_to_group-IsValid uid gid _ (Reachable-IsValid _ r)
Reachable-IsValid db (leave uid gid r) =
    usr_remove_from_group-IsValid uid gid _ (Reachable-IsValid _ r)
Reachable-IsValid db (password salt uid pw r) =
    usr_set_password-IsValid salt uid pw _ (Reachable-IsValid _ r)
Reachable-IsValid db (load_users salts buf len r) =
    usr_load_passwd-IsValid salts buf len _ (Reachable-IsValid _ r)
Reachable-IsValid db (load_group buf len r) =
    usr_load_group-IsValid buf len _ (Reachable-IsValid _ r)
