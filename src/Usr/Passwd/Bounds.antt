-- ===== src/Usr/Passwd/Bounds.antt =====
-- How many bytes `usr_write_passwd` of kernel/usr/usr.c writes.
use open_asd.Prelude.{
  ℕ, ◌+◌, ◌-◌, ◌*◌, ◌≤◌, ◌≡◌, refl, false, some, List, [], ◌∷◌, arith, ltb, length, length-append,
  take, length-take,
}
use open_asd.Usr.Db.{User, Db}
use open_asd.Usr.Passwd.{newline, decimal, flag_word, fmt_hex64}
use open_asd.Usr.Passwd.Write.{header, put, put_space, put_user, put_users, usr_write_passwd}

-- At least `low`, at most `high` bytes.
abbrev Within : ℕ → ℕ → List ℕ → Type 0
Within low high out = (low ≤ length out) × (length out ≤ high)

put-Within :
    (limit low high : ℕ) (out bytes : List ℕ)
    → limit ≤ high
    → Within low high out
    → Within low high (put limit out bytes)
unfolding put
put-Within limit low high out bytes l w = (
  omega (arith, length-append out (take (limit - length out) bytes)),
  omega (
    arith,
    length-append out (take (limit - length out) bytes),
    length-take (limit - length out) bytes,
  ),
)

put_space-Within :
    (low high : ℕ) (out : List ℕ)
    → Within low high out
    → Within (low + 1) (high + 1) (put_space out)
put_space-Within low high out w =
    (omega (arith, length-append out (b' ' ∷ [])), omega (arith, length-append out (b' ' ∷ [])))

module _ (buf_sz : ℕ) where
  token-Within :
      (low high : ℕ) (out bytes : List ℕ)
      → buf_sz - 1 ≤ high
      → Within low high out
      → Within (low + 1) (high + 1) (put_space (put (buf_sz - 2) out bytes))
  token-Within low high out bytes l w =
      put_space-Within low high (put (buf_sz - 2) out bytes)
        (put-Within (buf_sz - 2) low high out bytes (omega arith) w)

  put_user-Within :
      (low high : ℕ) (out : List ℕ) (u : User)
      → buf_sz - 1 ≤ high
      → Within low high out
      → Within (low + 7) (high + 7) (put_user buf_sz out u)
  unfolding put_user
  put_user-Within low high out u l w =
      let w1 = token-Within low high _ u.name (omega arith) w in
      let w2 = token-Within (low + 1) (high + 1) _ (decimal u.uid) (omega arith) w1 in
      let w3 = token-Within (low + 1 + 1) (high + 1 + 1) _ (decimal u.gid) (omega arith) w2 in
      let w4 =
        token-Within (low + 1 + 1 + 1) (high + 1 + 1 + 1) _ (flag_word u.flags) (omega arith) w3 in
      let w5 =
        token-Within (low + 1 + 1 + 1 + 1) (high + 1 + 1 + 1 + 1) _ u.home (omega arith) w4 in
      let w6 =
        token-Within (low + 1 + 1 + 1 + 1 + 1) (high + 1 + 1 + 1 + 1 + 1) _ u.shell (omega arith)
          w5 in
      let w7 =
        token-Within (low + 1 + 1 + 1 + 1 + 1 + 1) (high + 1 + 1 + 1 + 1 + 1 + 1) _
          (fmt_hex64 u.pw_salt) (omega arith) w6 in
      let w8 =
        put-Within (buf_sz - 2) (low + 1 + 1 + 1 + 1 + 1 + 1 + 1) (high + 1 + 1 + 1 + 1 + 1 + 1 + 1)
          _ (fmt_hex64 u.pw_hash) (omega arith) w7 in
      let w9 =
        put-Within (buf_sz - 1) (low + 1 + 1 + 1 + 1 + 1 + 1 + 1) (high + 1 + 1 + 1 + 1 + 1 + 1 + 1)
          _ (newline ∷ []) (omega arith) w8 in
      (omega (arith, w9.0), omega (arith, w9.1))

  put_users-Within :
      (us : List User) (low high : ℕ) (out : List ℕ)
      → buf_sz - 1 ≤ high
      → Within low high out
      → Within (low + 7 * length us) (high + 7 * length us) (put_users buf_sz out us)
  unfolding put_users
  put_users-Within [] low high out l w = (omega arith, omega arith)
  put_users-Within (u ∷ us) low high out l w =
      let (below, above) =
        put_users-Within us (low + 7) (high + 7) (put_user buf_sz out u) (omega arith)
          (put_user-Within low high out u l w) in
      (omega arith, omega arith)

-- `usr_write_passwd` with a buffer of 8 bytes at least writes 7 bytes at least for every user, and at
-- most 7 bytes per user more than the buffer has room for besides the terminator.
pub usr_write_passwd-length :
    (buf_sz : ℕ) (db : Db)
    → 8 ≤ buf_sz
    → (out : List ℕ) × (usr_write_passwd buf_sz db ≡ some out)
      × (7 * length db.users ≤ length out)
      × (length out ≤ buf_sz - 1 + 7 * length db.users)
unfolding usr_write_passwd
usr_write_passwd-length buf_sz db l =
    let start = put (buf_sz - 1) [] header in
    let (below, above) =
      put_users-Within buf_sz db.users 0 (buf_sz - 1) start (omega arith) (
        put-Within (buf_sz - 1) 0 (buf_sz - 1) [] header (omega arith)
          (omega arith, omega arith)) in
    (put_users buf_sz start db.users, rw big refl, omega arith, above)
  where
    big : ltb buf_sz 8 ≡ false
    big = ground arith
