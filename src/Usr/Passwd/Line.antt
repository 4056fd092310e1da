-- ===== src/Usr/Passwd/Line.antt =====
-- A line that `usr_write_passwd` of kernel/usr/usr.c writes, and its fields.
pub mod Turn
use open_asd.Prelude.{
  ℕ, ◌+◌, ◌-◌, ◌^◌, ◌≤◌, ◌<◌, ◌≡◌, refl, sym, ap, ◌∙◌, ◌≢◌, ◌⊎◌, inl, inr, true, List, [], ◌∷◌,
  ◌++◌, arith, length, length-append, get_or, take_all,
}
use mathlib.Core.List.{append_assoc, append-nil}
use open_asd.Usr.Db.{User, Db, usr_max_users, usr_name_len, usr_home_len, usr_shell_len}
use open_asd.Usr.Passwd.{
  newline, u_isspace, skip_ws, next_line, is_comment, is_empty, Fields, read_fields, read_line,
  fmt_hex64, decimal, flag_word, word_flag, apply_hash, field_uid, field_gid, add_fields, resume,
  load_from,
}
use open_asd.Usr.Passwd.Number.{parse_hex64-fmt_hex64, u_atou-decimal}
use open_asd.Usr.Passwd.Token.{
  IsToken, IsToken-weaken, skip_ws-plain, read_tok-first, read_tok-later, fmt_hex64-IsToken,
  is_hex64-fmt_hex64, decimal-IsToken, flag_word-IsToken,
}
use open_asd.Usr.Passwd.Write.{put, put_space, put_user}

-- Tokens with a space behind each.
abbrev spaced : List (List ℕ) → List ℕ → List ℕ
spaced [] tail = tail
spaced (t ∷ ts) tail = t ++ (b' ' ∷ spaced ts tail)

abbrev total : List (List ℕ) → ℕ
total [] = 0
total (t ∷ ts) = length t + 1 + total ts

spaced-append : (ts : List (List ℕ)) (xs ys : List ℕ) → spaced ts xs ++ ys ≡ spaced ts (xs ++ ys)
spaced-append [] xs ys = refl
spaced-append (t ∷ ts) xs ys =
    append_assoc t (b' ' ∷ spaced ts xs) ys ∙ ap (λ p. t ++ (b' ' ∷ p)) (spaced-append ts xs ys)

length-spaced :
    (ts : List (List ℕ)) (tail : List ℕ) → length (spaced ts tail) ≡ total ts + length tail
length-spaced [] tail = omega arith
length-spaced (t ∷ ts) tail =
    omega (arith, length-append t (b' ' ∷ spaced ts tail), length-spaced ts tail)

put_tokens : ℕ → List ℕ → List (List ℕ) → List ℕ
put_tokens limit out [] = out
put_tokens limit out (t ∷ ts) = put_tokens limit (put_space (put limit out t)) ts

is_space : u_isspace b' ' ≡ true
unfolding u_isspace
is_space = refl

is_newline : u_isspace newline ≡ true
unfolding u_isspace
is_newline = refl

-- Where there is room.
put_room : (limit : ℕ) (out t : List ℕ) → length out + length t ≤ limit → put limit out t ≡ out ++ t
unfolding put
put_room limit out t l = ap (λ p. out ++ p) (take_all (limit - length out) t (omega arith))

put_tokens-room :
    (limit : ℕ) (out : List ℕ) (ts : List (List ℕ))
    → length out + total ts ≤ limit
    → put_tokens limit out ts ≡ out ++ spaced ts []
unfolding put_tokens
put_tokens-room limit out [] l = sym (append-nil out)
put_tokens-room limit out (t ∷ ts) l =
    ap (λ p. put_tokens limit p ts) one
    ∙ put_tokens-room limit (out ++ (t ++ (b' ' ∷ []))) ts
        (omega (arith, length-append out (t ++ (b' ' ∷ [])), length-append t (b' ' ∷ [])))
    ∙ append_assoc out (t ++ (b' ' ∷ [])) (spaced ts [])
    ∙ ap (λ p. out ++ p) (append_assoc t (b' ' ∷ []) (spaced ts []))
  where
    one : put_space (put limit out t) ≡ out ++ (t ++ (b' ' ∷ []))
    one = ap put_space (put_room limit out t (omega arith)) ∙ append_assoc out t (b' ' ∷ [])

abbrev tokens : User → List (List ℕ)
tokens u =
    u.name
    ∷ decimal u.uid
    ∷ decimal u.gid
    ∷ flag_word u.flags
    ∷ u.home
    ∷ u.shell
    ∷ fmt_hex64 u.pw_salt
    ∷ []

-- The line of a user, before the rest of the file.
abbrev pub line : User → List ℕ → List ℕ
line u rest = spaced (tokens u) (fmt_hex64 u.pw_hash ++ (newline ∷ rest))

-- None, wheel, nologin or locked.
abbrev pub HasOneFlag : ℕ → Type 0
HasOneFlag flags = (flags ≡ 0) ⊎ ((flags ≡ 1) ⊎ ((flags ≡ 2) ⊎ (flags ≡ 4)))

word_flag-flag_word : (flags : ℕ) → HasOneFlag flags → word_flag (flag_word flags) ≡ flags
unfolding word_flag flag_word
word_flag-flag_word flags (inl e) = rw e refl
word_flag-flag_word flags (inr (inl e)) = rw e refl
word_flag-flag_word flags (inr (inr (inl e))) = rw e refl
word_flag-flag_word flags (inr (inr (inr e))) = rw e refl

-- A user whose entries can be told apart in a line of the file.
pub record IsWritable (u : User) : Type 0 where
  pub name : IsToken 31 u.name
  pub home : IsToken 63 u.home
  pub shell : IsToken 63 u.shell
  pub no_comment : get_or u.name 0 0 ≢ b'#'
  pub uid : u.uid < 2 ^ 16
  pub gid : u.gid < 2 ^ 16
  pub salt : u.pw_salt < 2 ^ 64
  pub hash : u.pw_hash < 2 ^ 64
  pub one_flag : HasOneFlag u.flags

-- What is read of the line of a user.
fields : User → Fields
fields u = record {
  name = u.name;
  uid_s = decimal u.uid;
  gid_s = decimal u.gid;
  flags_s = flag_word u.flags;
  home = u.home;
  shell = u.shell;
  salt_s = fmt_hex64 u.pw_salt;
  hash_s = fmt_hex64 u.pw_hash;
}

module _ (u : User) (w : IsWritable u) where
  total-tokens : total (tokens u) ≤ 208
  total-tokens = omega (
    arith,
    w.name.fits,
    (decimal-IsToken u.uid).fits,
    (decimal-IsToken u.gid).fits,
    (flag_word-IsToken u.flags).fits,
    w.home.fits,
    w.shell.fits,
    (fmt_hex64-IsToken u.pw_salt).fits,
  )

  put_user-line :
      (buf_sz : ℕ) (out : List ℕ)
      → length out + 228 ≤ buf_sz
      → put_user buf_sz out u ≡ out ++ line u []
  unfolding put_user put_tokens
  put_user-line buf_sz out l =
      ap (λ p. put (buf_sz - 1) (put (buf_sz - 2) p hash) (newline ∷ []))
        (put_tokens-room (buf_sz - 2) out (tokens u) (omega (arith, total-tokens)))
      ∙ ap (λ p. put (buf_sz - 1) p (newline ∷ []))
          (put_room (buf_sz - 2) before hash
            (omega (arith, long, (fmt_hex64-IsToken u.pw_hash).fits)))
      ∙ put_room (buf_sz - 1) (before ++ hash) (newline ∷ [])
          (omega (arith, long, length-append before hash, (fmt_hex64-IsToken u.pw_hash).fits))
      ∙ append_assoc before hash (newline ∷ [])
      ∙ append_assoc out (spaced (tokens u) []) (hash ++ (newline ∷ []))
      ∙ ap (λ p. out ++ p) (spaced-append (tokens u) [] (hash ++ (newline ∷ [])))
    where
      hash : List ℕ
      hash = fmt_hex64 u.pw_hash

      before : List ℕ
      before = out ++ spaced (tokens u) []

      long : length before ≤ length out + 208
      long = omega (
        arith,
        length-append out (spaced (tokens u) []),
        length-spaced (tokens u) [],
        total-tokens,
      )

  read_fields-line : (rest : List ℕ) → read_fields (line u rest) ≡ (fields u, newline ∷ rest)
  unfolding read_fields fields
  read_fields-line rest =
      rw
        (
          read_tok-first usr_name_len u.name b' ' from_uid w.name space,
          read_tok-later 16 (decimal u.uid) b' ' from_gid (number u.uid) space,
          read_tok-later 16 (decimal u.gid) b' ' from_flags (number u.gid) space,
          read_tok-later 32 (flag_word u.flags) b' ' from_home
              (IsToken-weaken 7 31 (flag_word u.flags) (omega arith) (flag_word-IsToken u.flags))
              space,
          read_tok-later usr_home_len u.home b' ' from_shell w.home space,
          read_tok-later usr_shell_len u.shell b' ' from_salt w.shell space,
          read_tok-later 20 (fmt_hex64 u.pw_salt) b' ' from_hash (hex u.pw_salt) space,
          read_tok-later 20 (fmt_hex64 u.pw_hash) newline rest (hex u.pw_hash) end_of_line,
        )
        refl
    where
      from_hash : List ℕ
      from_hash = fmt_hex64 u.pw_hash ++ (newline ∷ rest)

      from_salt : List ℕ
      from_salt = fmt_hex64 u.pw_salt ++ (b' ' ∷ from_hash)

      from_shell : List ℕ
      from_shell = u.shell ++ (b' ' ∷ from_salt)

      from_home : List ℕ
      from_home = u.home ++ (b' ' ∷ from_shell)

      from_flags : List ℕ
      from_flags = flag_word u.flags ++ (b' ' ∷ from_home)

      from_gid : List ℕ
      from_gid = decimal u.gid ++ (b' ' ∷ from_flags)

      from_uid : List ℕ
      from_uid = decimal u.uid ++ (b' ' ∷ from_gid)

      space : u_isspace b' ' ≡ true
      space = is_space

      end_of_line : u_isspace newline ≡ true
      end_of_line = is_newline

      number : (v : ℕ) → IsToken 15 (decimal v)
      number v = IsToken-weaken 10 15 (decimal v) (omega arith) (decimal-IsToken v)

      hex : (v : ℕ) → IsToken 19 (fmt_hex64 v)
      hex v = IsToken-weaken 16 19 (fmt_hex64 v) (omega arith) (fmt_hex64-IsToken v)
