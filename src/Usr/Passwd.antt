-- ===== src/Usr/Passwd.antt =====
-- The passwd and group files of kernel/usr/usr.c: tokens, numbers, loading and writing. A pointer into
-- a string is the list of the bytes from there to the terminator.
pub mod Number
pub mod Write
pub mod Token
pub mod Line
pub mod Bounds
pub mod Run
pub mod Reach
mod Tests
use open_asd.Prelude.{
  ℕ, zero, suc, ◌+◌, ◌-◌, ◌*◌, ◌/◌, ◌%◌, ◌^◌, bit_and, bit_or, Bool, true, false, not, ◌&&◌, ◌||◌,
  Option, none, some, List, [], ◌∷◌, ltb, leb, ◌==◌, str_eq, length, if◌then◌else◌,
}
use open_asd.Usr.Db.{
  User, Db, usr_max_users, usr_name_len, usr_home_len, usr_shell_len, flag_wheel, flag_nologin,
  flag_locked, is_some, change_user, grp_find_by_gid, grp_add, usr_find_by_uid, usr_find_by_name,
  usr_add,
}

unfoldable pub u_isspace : ℕ → Bool
u_isspace c = (c == b' ') || (c == 9) || (c == 10) || (c == 13)

unfoldable pub u_isdigit : ℕ → Bool
u_isdigit c = leb b'0' c && leb c b'9'

abbrev pub newline : ℕ
newline = 10

unfoldable pub skip_ws : List ℕ → List ℕ
skip_ws [] = []
skip_ws (c ∷ cs) =
    let rest = skip_ws cs in if u_isspace c && not (c == newline) then rest else c ∷ cs

-- At most `n` bytes up to a space, and what is left.
unfoldable pub take_tok : ℕ → List ℕ → List ℕ × List ℕ
take_tok zero cs = ([], cs)
take_tok (suc n) [] = ([], [])
take_tok (suc n) (c ∷ cs) =
    let (tok, rest) = take_tok n cs in if u_isspace c then ([], c ∷ cs) else (c ∷ tok, rest)

unfoldable pub read_tok : ℕ → List ℕ → List ℕ × List ℕ
read_tok out_sz p = take_tok (out_sz - 1) (skip_ws p)

unfoldable pub next_line : List ℕ → List ℕ
next_line [] = []
next_line (c ∷ cs) = let rest = next_line cs in if c == newline then cs else rest

-- The value of a hex digit.
unfoldable pub nibble : ℕ → Option ℕ
nibble c =
    if leb b'0' c && leb c b'9'
    then some (c - b'0')
    else if leb b'a' c && leb c b'f'
    then some (c - b'a' + 10)
    else if leb b'A' c && leb c b'F'
    then some (c - b'A' + 10)
    else none

unfoldable pub all_hex : ℕ → List ℕ → Bool
all_hex zero s = true
all_hex (suc n) [] = false
all_hex (suc n) (c ∷ cs) = is_some (nibble c) && all_hex n cs

unfoldable pub is_hex64 : List ℕ → Bool
is_hex64 s = all_hex 16 s

unfoldable pub parse_from : ℕ → List ℕ → ℕ → ℕ
parse_from zero s v = v
parse_from (suc n) [] v = v
parse_from (suc n) (c ∷ cs) v = elim (nibble c) [
  | none ↦ v
  | some nib ↦ parse_from n cs (bit_or (v * 2 ^ 4 % 2 ^ 64) nib)
]

unfoldable pub parse_hex64 : List ℕ → ℕ
parse_hex64 s = parse_from 16 s 0

unfoldable pub atou_from : List ℕ → ℕ → ℕ
atou_from [] v = v
atou_from (c ∷ cs) v =
    let rest = atou_from cs ((v * 10 + (c - b'0')) % 2 ^ 32) in if u_isdigit c then rest else v

unfoldable pub u_atou : List ℕ → ℕ
u_atou s = atou_from s 0

-- `"0123456789abcdef"[d]`
unfoldable pub hex_digit : ℕ → ℕ
hex_digit d = if ltb d 10 then b'0' + d else b'a' + (d - 10)

-- The digits are written from the last to the first.
unfoldable pub fmt_from : ℕ → ℕ → List ℕ → List ℕ
fmt_from zero v out = out
fmt_from (suc n) v out = fmt_from n (v / 2 ^ 4) (hex_digit (v % 16) ∷ out)

unfoldable pub fmt_hex64 : ℕ → List ℕ
fmt_hex64 v = fmt_from 16 v []

-- "while (v) { tmp[--ti] = …; v /= 10; }"; 32 bits have at most 10 digits.
unfoldable pub decimal_from : ℕ → ℕ → List ℕ → List ℕ
decimal_from zero v out = out
decimal_from (suc n) v out =
    let rest = decimal_from n (v / 10) ((b'0' + v % 10) ∷ out) in if v == 0 then out else rest

unfoldable pub decimal : ℕ → List ℕ
decimal v = if v == 0 then b'0' ∷ [] else decimal_from 10 v []

-- "wheel", "nologin", "locked" and "-".
abbrev pub wheel_word : List ℕ
wheel_word = b'w' ∷ b'h' ∷ b'e' ∷ b'e' ∷ b'l' ∷ []

abbrev pub nologin_word : List ℕ
nologin_word = b'n' ∷ b'o' ∷ b'l' ∷ b'o' ∷ b'g' ∷ b'i' ∷ b'n' ∷ []

abbrev pub locked_word : List ℕ
locked_word = b'l' ∷ b'o' ∷ b'c' ∷ b'k' ∷ b'e' ∷ b'd' ∷ []

unfoldable pub flag_word : ℕ → List ℕ
flag_word flags =
    if not (bit_and flags flag_wheel == 0)
    then wheel_word
    else if not (bit_and flags flag_nologin == 0)
    then nologin_word
    else if not (bit_and flags flag_locked == 0)
    then locked_word
    else b'-' ∷ []

unfoldable pub word_flag : List ℕ → ℕ
word_flag s =
    if str_eq s wheel_word
    then flag_wheel
    else if str_eq s nologin_word
    then flag_nologin
    else if str_eq s locked_word
    then flag_locked
    else 0

-- The tokens of a line.
pub record Fields : Type 0 where
  pub name : List ℕ
  pub uid_s : List ℕ
  pub gid_s : List ℕ
  pub flags_s : List ℕ
  pub home : List ℕ
  pub shell : List ℕ
  pub salt_s : List ℕ
  pub hash_s : List ℕ

unfoldable pub read_fields : List ℕ → Fields × List ℕ
read_fields p =
    let (name, p1) = read_tok usr_name_len p in
    let (uid_s, p2) = read_tok 16 p1 in
    let (gid_s, p3) = read_tok 16 p2 in
    let (flags_s, p4) = read_tok 32 p3 in
    let (home, p5) = read_tok usr_home_len p4 in
    let (shell, p6) = read_tok usr_shell_len p5 in
    let (salt_s, p7) = read_tok 20 p6 in
    let (hash_s, p8) = read_tok 20 p7 in
    (
      record {
        name = name;
        uid_s = uid_s;
        gid_s = gid_s;
        flags_s = flags_s;
        home = home;
        shell = shell;
        salt_s = salt_s;
        hash_s = hash_s;
      },
      p8,
    )

abbrev pub is_empty : List ℕ → Bool
is_empty [] = true
is_empty (c ∷ cs) = false

-- `home[0] ? home : NULL`
abbrev pub unless_empty : List ℕ → Option (List ℕ)
unless_empty [] = none
unless_empty (c ∷ cs) = some (c ∷ cs)

-- "unknown"
abbrev pub unknown_name : List ℕ
unknown_name = b'u' ∷ b'n' ∷ b'k' ∷ b'n' ∷ b'o' ∷ b'w' ∷ b'n' ∷ []

-- "Apply persisted hash even if user was pre-created"
unfoldable pub apply_hash : Fields → User → User
apply_hash f u = record u {
  pw_salt = if is_hex64 f.salt_s then parse_hex64 f.salt_s else u.pw_salt;
  pw_hash = if is_hex64 f.hash_s then parse_hex64 f.hash_s else u.pw_hash;
}

-- `(uid_t)u_atou(uid_s)` and `(gid_t)u_atou(gid_s)`, of 16 bits.
unfoldable pub field_uid : Fields → ℕ
field_uid f = u_atou f.uid_s % 2 ^ 16

unfoldable pub field_gid : Fields → ℕ
field_gid f = u_atou f.gid_s % 2 ^ 16

unfoldable pub ensure_group : ℕ → Db → Db
ensure_group gid db =
    if is_some (grp_find_by_gid gid db) then db else (grp_add gid unknown_name db).1

-- `salt` is the one that `usr_add` draws.
unfoldable pub ensure_user : ℕ → Fields → Db → Db
ensure_user salt f db =
    if is_some (usr_find_by_uid (field_uid f) db) || is_some (usr_find_by_name f.name db)
    then db
    else (usr_add salt (field_uid f) (field_gid f) f.name (some []) (word_flag f.flags_s)
        (unless_empty f.home) (unless_empty f.shell) db).1

unfoldable pub add_fields : ℕ → Fields → Db → Db
add_fields salt f db =
    let db1 = ensure_user salt f (ensure_group (field_gid f) db) in
    record db1 { users = change_user (field_uid f) (apply_hash f) db1.users }

abbrev pub is_comment : List ℕ → Bool
is_comment [] = true
is_comment (c ∷ cs) = (c == b'#') || (c == newline)

-- What a turn of the loop reads, and the rest behind the line; `none` ends the loop. `behind` bytes of
-- the string stand behind `end`.
unfoldable pub read_line : ℕ → List ℕ → ℕ → Option (Option Fields × List ℕ)
read_line behind p loaded =
    let (f, after) = read_fields (skip_ws p) in
    if leb (length p) behind || leb usr_max_users loaded
    then none
    else if is_comment (skip_ws p)
    then some (none, next_line (skip_ws p))
    else if is_empty f.name || is_empty f.uid_s || is_empty f.gid_s
    then some (none, next_line after)
    else some (some f, next_line after)

-- What a turn does with what it has read, and the loop from there.
abbrev pub resume :
    (ℕ → ℕ) → (List ℕ → ℕ → Db → ℕ × Db) → Option (Option Fields × List ℕ) → ℕ → Db → ℕ × Db
resume salts loop none loaded db = (loaded, db)
resume salts loop (some (none, rest)) loaded db = loop rest loaded db
resume salts loop (some (some f, rest)) loaded db =
    loop rest (loaded + 1) (add_fields (salts loaded) f db)

-- A turn takes at least one byte. The salts come from the entropy pool.
unfoldable pub load_from : ℕ → (ℕ → ℕ) → ℕ → List ℕ → ℕ → Db → ℕ × Db
load_from zero salts behind p loaded db = (loaded, db)
load_from (suc n) salts behind p loaded db =
    resume salts (load_from n salts behind) (read_line behind p loaded) loaded db

unfoldable pub usr_load_passwd : (ℕ → ℕ) → List ℕ → ℕ → Db → Option ℕ × Db
usr_load_passwd salts buf len db =
    if len == 0
    then (none, db)
    else let (loaded, db1) = load_from (length buf) salts (length buf - len) buf 0 db in
      (some loaded, db1)

-- The same for the group file: the name and the id of a line.
unfoldable pub read_group : ℕ → List ℕ → Option (Option (List ℕ × List ℕ) × List ℕ)
read_group behind p =
    let (name, p1) = read_tok usr_name_len (skip_ws p) in
    let (gid_s, p2) = read_tok 16 p1 in
    if leb (length p) behind
    then none
    else if is_comment (skip_ws p)
    then some (none, next_line (skip_ws p))
    else if is_empty name || is_empty gid_s
    then some (none, next_line p2)
    else some (some (name, gid_s), next_line p2)

-- A group whose id is new; `ensure_group` is this with the name "unknown".
unfoldable pub add_group : ℕ → List ℕ → Db → Db
add_group gid name db = if is_some (grp_find_by_gid gid db) then db else (grp_add gid name db).1

abbrev pub resume_group :
    (List ℕ → ℕ → Db → ℕ × Db) → Option (Option (List ℕ × List ℕ) × List ℕ) → ℕ → Db → ℕ × Db
resume_group loop none loaded db = (loaded, db)
resume_group loop (some (none, rest)) loaded db = loop rest loaded db
resume_group loop (some (some (name, gid_s), rest)) loaded db =
    loop rest (loaded + 1) (add_group (u_atou gid_s % 2 ^ 16) name db)

unfoldable pub load_groups : ℕ → ℕ → List ℕ → ℕ → Db → ℕ × Db
load_groups zero behind p loaded db = (loaded, db)
load_groups (suc n) behind p loaded db =
    resume_group (load_groups n behind) (read_group behind p) loaded db

unfoldable pub usr_load_group : List ℕ → ℕ → Db → Option ℕ × Db
usr_load_group buf len db =
    if len == 0
    then (none, db)
    else let (loaded, db1) = load_groups (length buf) (length buf - len) buf 0 db in
      (some loaded, db1)
