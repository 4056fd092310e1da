-- ===== src/Usr/Passwd/Tests.antt =====
-- Runs of the passwd and group files, and their theorems at a user.
use open_asd.Prelude.{ℕ, ◌≤◌, ◌≡◌, refl, inl, inr, some, List, [], ◌∷◌, ◌++◌, arith, length}
use open_asd.Usr.Db.{User, Db, usr_init, grp_add, grp_find_by_gid, grp_find_by_name}
use open_asd.Prelude.Find.{find}
use open_asd.Usr.Passwd.{
  newline, u_isspace, u_isdigit, skip_ws, take_tok, read_tok, next_line, Fields, u_atou, atou_from,
  word_flag, apply_hash, load_from, usr_load_passwd, read_group, load_groups, usr_load_group,
  add_group, add_fields, field_uid, field_gid,
}
use open_asd.Usr.Passwd.Write.{put_user, usr_write_passwd}
use open_asd.Usr.Passwd.Line.{IsWritable}
use open_asd.Usr.Passwd.Line.Turn.{put_user-load_from}
use open_asd.Usr.Passwd.Bounds.{usr_write_passwd-length}
use open_asd.Usr.Passwd.Run.{Run, usr_load_passwd-Run}
use open_asd.Usr.Passwd.Reach.{init, load_users, load_group, Reachable-IsValid}
use open_asd.Usr.Db.Valid.{IsValid}

abbrev bob : User
bob = record {
  uid = 1000;
  gid = 100;
  flags = 1;
  pw_hash = 0x0123456789ABCDEF;
  pw_salt = 77;
  name = b'b' ∷ b'o' ∷ b'b' ∷ [];
  home = b'/' ∷ b'b' ∷ [];
  shell = b'/' ∷ b's' ∷ b'h' ∷ [];
  groups = 0;
}

bob-IsWritable : IsWritable bob
unfolding u_isspace
bob-IsWritable = record {
  name = record { some_byte = omega arith; fits = omega arith; plain = (refl, (refl, (refl, tt))) };
  home = record { some_byte = omega arith; fits = omega arith; plain = (refl, (refl, tt)) };
  shell = record {
    some_byte = omega arith;
    fits = omega arith;
    plain = (refl, (refl, (refl, tt)));
  };
  no_comment = λ e. omega (arith, e);
  uid = omega arith;
  gid = omega arith;
  salt = omega arith;
  hash = omega arith;
  one_flag = inr (inl refl);
}

abbrev text : List ℕ
text = b'o' ∷ b'p' ∷ b' ' ∷ b'7' ∷ newline ∷ []

abbrev no_salt : ℕ → ℕ
no_salt i = 0

abbrev empty_db : Db
empty_db = record { users = []; groups = [] }

abbrev f0 : Fields
f0 = record {
  name = b'r' ∷ [];
  uid_s = b'6' ∷ b'5' ∷ b'5' ∷ b'3' ∷ b'6' ∷ [];
  gid_s = b'0' ∷ [];
  flags_s = [];
  home = [];
  shell = [];
  salt_s = [];
  hash_s = [];
}

put_user-load_from_example :
    (f : Fields) × (written : List ℕ) × (put_user 256 (b'#' ∷ newline ∷ []) bob
      ≡ (b'#' ∷ newline ∷ []) ++ written)
    × (load_from 3 no_salt 0 (written ++ (b'x' ∷ [])) 0 empty_db
        ≡ load_from 2 no_salt 0 (b'x' ∷ []) 1 (add_fields 0 f empty_db))
    × (f.name ≡ b'b' ∷ b'o' ∷ b'b' ∷ [])
    × (field_uid f ≡ 1000)
    × (field_gid f ≡ 100)
    × (word_flag f.flags_s ≡ 1)
    × (f.home ≡ b'/' ∷ b'b' ∷ [])
    × (f.shell ≡ b'/' ∷ b's' ∷ b'h' ∷ [])
    × ((apply_hash f bob).pw_salt ≡ 77)
    × ((apply_hash f bob).pw_hash ≡ 0x0123456789ABCDEF)
put_user-load_from_example =
    put_user-load_from bob bob-IsWritable 256 (b'#' ∷ newline ∷ []) (b'x' ∷ []) no_salt 2 0 0
      empty_db bob (omega arith) (omega arith) (omega arith)

-- The buffer of 8 bytes is overrun.
usr_write_passwd-length_example :
    (out : List ℕ) × (usr_write_passwd 8 (record { users = bob ∷ bob ∷ []; groups = [] })
      ≡ some out)
    × (14 ≤ length out)
    × (length out ≤ 21)
usr_write_passwd-length_example =
    usr_write_passwd-length 8 (record { users = bob ∷ bob ∷ []; groups = [] }) (omega arith)

usr_load_passwd-Run_example :
    (r : ℕ × Db) × (usr_load_passwd no_salt text 5 empty_db ≡ (some r.0, r.1))
    × Run no_salt 0 text 0 empty_db r
    × (r.0 ≤ 64)
usr_load_passwd-Run_example = usr_load_passwd-Run no_salt text 5 empty_db (omega arith)

Reachable-IsValid_example :
    IsValid (usr_load_group text 5 (usr_load_passwd no_salt text 5 (usr_init 9)).1).1
Reachable-IsValid_example =
    Reachable-IsValid _ (load_group text 5 (load_users no_salt text 5 (init 9)))

-- The id 65536 of 16 bits is 0.
uid_wraps : field_uid f0 ≡ 0
unfolding field_uid u_atou atou_from u_isdigit
uid_wraps = refl

-- A group file of one line.
loaded : usr_load_group text 5 empty_db ≡ (
  some 1,
  record { users = []; groups = record { gid = 7; name = b'o' ∷ b'p' ∷ []; member_mask = 0 } ∷ [] },
)
unfolding usr_load_group load_groups add_group read_group read_tok skip_ws take_tok next_line
    u_isspace u_atou atou_from u_isdigit grp_add grp_find_by_gid grp_find_by_name find
loaded = refl
