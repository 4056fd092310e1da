-- ===== src/Usr/Passwd/Line/Turn.antt =====
-- A line that `usr_write_passwd` of kernel/usr/usr.c writes is a turn of the loop of `usr_load_passwd`.
use mathlib.Core.List.{append_assoc}
use open_asd.Prelude.{
  ℕ, suc, ◌+◌, ◌≤◌, ◌<◌, ◌≡◌, refl, ap, ◌∙◌, ◌≢◌, false, ◌||◌, some, List, [], ◌∷◌, ◌++◌, arith,
  leb, length, length-append, get_or,
}
use open_asd.Usr.Db.{User, Db, usr_max_users}
use open_asd.Usr.Passwd.{
  newline, u_isspace, skip_ws, next_line, is_comment, is_empty, Fields, read_line, fmt_hex64,
  decimal, flag_word, word_flag, apply_hash, field_uid, field_gid, add_fields, resume, load_from,
}
use open_asd.Usr.Passwd.Number.{parse_hex64-fmt_hex64, u_atou-decimal}
use open_asd.Usr.Passwd.Token.{IsToken, skip_ws-plain, is_hex64-fmt_hex64, decimal-IsToken}
use open_asd.Usr.Passwd.Write.{put_user}
use open_asd.Usr.Passwd.Line.{
  IsWritable, line, tokens, spaced, spaced-append, length-spaced, word_flag-flag_word, fields,
  put_user-line, read_fields-line,
}

-- What a line begins with is read, and is no comment.
name-first :
    (s rest : List ℕ)
    → IsToken 31 s
    → get_or s 0 0 ≢ b'#'
    → (skip_ws (s ++ rest) ≡ s ++ rest) × (is_comment (s ++ rest) ≡ false)
unfolding u_isspace
name-first [] rest t h = absurd (omega (arith, t.some_byte))
name-first (c ∷ s) rest t h = (skip_ws-plain c (s ++ rest) t.plain.0, ground (arith, t.plain.0))

token-not_empty : (n : ℕ) (s : List ℕ) → IsToken n s → is_empty s ≡ false
token-not_empty n [] t = absurd (omega (arith, t.some_byte))
token-not_empty n (c ∷ s) t = refl

next_line-newline : (rest : List ℕ) → next_line (newline ∷ rest) ≡ rest
unfolding next_line
next_line-newline rest = refl

module _ (u : User) (w : IsWritable u) where
  read_line-line :
      (behind : ℕ) (rest : List ℕ) (loaded : ℕ)
      → behind ≤ length rest
      → loaded < usr_max_users
      → read_line behind (line u rest) loaded ≡ some (some (fields u), rest)
  unfolding read_line fields
  read_line-line behind rest loaded b l =
      let (start, comment) = name-first u.name after_name w.name w.no_comment in
      rw
        (
          start,
          read_fields-line u w rest,
          going,
          comment,
          token-not_empty 31 u.name w.name,
          token-not_empty 10 (decimal u.uid) (decimal-IsToken u.uid),
          token-not_empty 10 (decimal u.gid) (decimal-IsToken u.gid),
          next_line-newline rest,
        )
        refl
    where
      after_name : List ℕ
      after_name =
          b' '
          ∷ spaced
              (decimal u.uid
                ∷ decimal u.gid
                ∷ flag_word u.flags
                ∷ u.home
                ∷ u.shell
                ∷ fmt_hex64 u.pw_salt
                ∷ [])
              (fmt_hex64 u.pw_hash ++ (newline ∷ rest))

      going : (leb (length (line u rest)) behind || leb usr_max_users loaded) ≡ false
      going = ground (
        arith,
        length-spaced (tokens u) (fmt_hex64 u.pw_hash ++ (newline ∷ rest)),
        length-append (fmt_hex64 u.pw_hash) (newline ∷ rest),
      )

  field_uid-fields : field_uid (fields u) ≡ u.uid
  unfolding field_uid fields
  field_uid-fields = omega (arith, u_atou-decimal u.uid (omega (arith, w.uid)), w.uid)

  field_gid-fields : field_gid (fields u) ≡ u.gid
  unfolding field_gid fields
  field_gid-fields = omega (arith, u_atou-decimal u.gid (omega (arith, w.gid)), w.gid)

  pw_salt-fields : (v : User) → (apply_hash (fields u) v).pw_salt ≡ u.pw_salt
  unfolding apply_hash fields
  pw_salt-fields v = rw (is_hex64-fmt_hex64 u.pw_salt) (parse_hex64-fmt_hex64 u.pw_salt w.salt)

  pw_hash-fields : (v : User) → (apply_hash (fields u) v).pw_hash ≡ u.pw_hash
  unfolding apply_hash fields
  pw_hash-fields v = rw (is_hex64-fmt_hex64 u.pw_hash) (parse_hex64-fmt_hex64 u.pw_hash w.hash)

  -- The line that `usr_write_passwd` appends for a user, with 228 bytes of room, is one turn of the loop
  -- of `usr_load_passwd`, whatever comes behind it, as long as fewer than 64 lines have been loaded: the
  -- loop goes on behind the line, with the tables to which the fields read have been added. The fields are
  -- the user's name, home and shell, the ids of 16 bits are the user's, the flag word stands for the
  -- flags, and the salt and hash that they give to any user are the user's. The name, home and shell
  -- are not empty, fit their arrays and have no spaces, the name does not begin with '#', and at most
  -- one flag is set.
  pub put_user-load_from :
      (buf_sz : ℕ) (out rest : List ℕ) (salts : ℕ → ℕ) (n behind loaded : ℕ) (db : Db) (v : User)
      → length out + 228 ≤ buf_sz
      → behind ≤ length rest
      → loaded < usr_max_users
      → (f : Fields) × (written : List ℕ) × (put_user buf_sz out u ≡ out ++ written)
        × (load_from (suc n) salts behind (written ++ rest) loaded db
            ≡ load_from n salts behind rest (loaded + 1) (add_fields (salts loaded) f db))
        × (f.name ≡ u.name)
        × (field_uid f ≡ u.uid)
        × (field_gid f ≡ u.gid)
        × (word_flag f.flags_s ≡ u.flags)
        × (f.home ≡ u.home)
        × (f.shell ≡ u.shell)
        × ((apply_hash f v).pw_salt ≡ u.pw_salt)
        × ((apply_hash f v).pw_hash ≡ u.pw_hash)
  unfolding fields load_from
  put_user-load_from buf_sz out rest salts n behind loaded db v l b room = (
    fields u,
    line u [],
    put_user-line u w buf_sz out l,
    ap (λ o. resume salts (load_from n salts behind) o loaded db)
        (ap (λ p. read_line behind p loaded) whole ∙ read_line-line behind rest loaded b room),
    refl,
    field_uid-fields,
    field_gid-fields,
    word_flag-flag_word u.flags w.one_flag,
    refl,
    refl,
    pw_salt-fields v,
    pw_hash-fields v,
  )
    where
      whole : line u [] ++ rest ≡ line u rest
      whole =
          spaced-append (tokens u) (fmt_hex64 u.pw_hash ++ (newline ∷ [])) rest
          ∙ ap (spaced (tokens u)) (append_assoc (fmt_hex64 u.pw_hash) (newline ∷ []) rest)
