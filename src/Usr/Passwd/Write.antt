-- ===== src/Usr/Passwd/Write.antt =====
-- `usr_write_passwd` of kernel/usr/usr.c.
use open_asd.Prelude.{
  ℕ, ◌-◌, Option, none, some, List, [], ◌∷◌, ◌++◌, ltb, length, take, if◌then◌else◌,
}
use open_asd.Usr.Db.{User, Db}
use open_asd.Usr.Passwd.{newline, decimal, flag_word, fmt_hex64}

-- "#ASDPW1\n"
abbrev pub header : List ℕ
header = b'#' ∷ b'A' ∷ b'S' ∷ b'D' ∷ b'P' ∷ b'W' ∷ b'1' ∷ newline ∷ []

-- The bytes written so far, of which `pos` is the number, with more of them as long as `pos` is below
-- the limit.
unfoldable pub put : ℕ → List ℕ → List ℕ → List ℕ
put limit out bytes = out ++ take (limit - length out) bytes

-- "buf[pos++] = ' '", whatever `pos` is.
abbrev pub put_space : List ℕ → List ℕ
put_space out = out ++ (b' ' ∷ [])

unfoldable pub put_user : ℕ → List ℕ → User → List ℕ
put_user buf_sz out u =
    let name = put_space (put (buf_sz - 2) out u.name) in
    let uid = put_space (put (buf_sz - 2) name (decimal u.uid)) in
    let gid = put_space (put (buf_sz - 2) uid (decimal u.gid)) in
    let flags = put_space (put (buf_sz - 2) gid (flag_word u.flags)) in
    let home = put_space (put (buf_sz - 2) flags u.home) in
    let shell = put_space (put (buf_sz - 2) home u.shell) in
    let salt = put_space (put (buf_sz - 2) shell (fmt_hex64 u.pw_salt)) in
    put (buf_sz - 1) (put (buf_sz - 2) salt (fmt_hex64 u.pw_hash)) (newline ∷ [])

unfoldable pub put_users : ℕ → List ℕ → List User → List ℕ
put_users buf_sz out [] = out
put_users buf_sz out (u ∷ us) = put_users buf_sz (put_user buf_sz out u) us

-- The bytes that are written, the terminator not among them; their number is the result.
unfoldable pub usr_write_passwd : ℕ → Db → Option (List ℕ)
usr_write_passwd buf_sz db =
    if ltb buf_sz 8 then none else some (put_users buf_sz (put (buf_sz - 1) [] header) db.users)
