-- ===== src/Usr/Passwd/Run.antt =====
-- The loop of `usr_load_passwd` in kernel/usr/usr.c ends: every turn takes a byte of the text.
use open_asd.Prelude.{
  ℕ, zero, suc, ◌+◌, ◌-◌, ◌≤◌, ◌<◌, ◌≡◌, refl, ap, inl, inr, Bool, true, false, ◌||◌, Option, none,
  some, List, [], ◌∷◌, arith, leb, ◌==◌, Bool-cases, length, le→leb, if◌then◌else◌,
}
use open_asd.Usr.Db.{Db, usr_max_users, usr_name_len, usr_home_len, usr_shell_len}
use open_asd.Usr.Passwd.{
  newline, u_isspace, skip_ws, take_tok, read_tok, next_line, Fields, read_fields, is_comment,
  read_line, add_fields, resume, load_from, usr_load_passwd,
}

length-skip_ws : (p : List ℕ) → length (skip_ws p) ≤ length p
unfolding skip_ws
length-skip_ws [] = omega arith
length-skip_ws (c ∷ cs) = ground (arith, length-skip_ws cs)

length-take_tok : (n : ℕ) (p : List ℕ) → length (take_tok n p).1 ≤ length p
unfolding take_tok
length-take_tok zero p = omega arith
length-take_tok (suc n) [] = omega arith
length-take_tok (suc n) (c ∷ cs) = elim (Bool-cases (u_isspace c)) [
  | inl space ↦ rw space (omega arith)
  | inr plain ↦ rw plain (omega (arith, length-take_tok n cs))
]

length-read_tok : (n : ℕ) (p : List ℕ) → length (read_tok n p).1 ≤ length p
unfolding read_tok
length-read_tok n p = omega (arith, length-take_tok (n - 1) (skip_ws p), length-skip_ws p)

length-next_line : (p : List ℕ) → length (next_line p) ≤ length p - 1
unfolding next_line
length-next_line [] = omega arith
length-next_line (c ∷ cs) = elim (Bool-cases (c == newline)) [
  | inl this ↦ rw this (omega arith)
  | inr other ↦ rw other (omega (arith, length-next_line cs))
]

within : (n m : ℕ) (p : List ℕ) → length p ≤ m → length (read_tok n p).1 ≤ m
within n m p l = omega (arith, length-read_tok n p)

length-read_fields : (p : List ℕ) → length (read_fields p).1 ≤ length p
unfolding read_fields
length-read_fields p = within 20 (length p) _ (
    within 20 (length p) _ (
      within usr_shell_len (length p) _ (
        within usr_home_len (length p) _ (
          within 32 (length p) _
            (within 16 (length p) _ (within 16 (length p) _ (length-read_tok usr_name_len p)))))))

abbrev left_over : Option (Option Fields × List ℕ) → ℕ
left_over none = 0
left_over (some turn) = length turn.1

-- Whichever branch is taken.
shorter :
    (over comment bad : Bool) (f : Fields) (x y : List ℕ) (turn : Option Fields × List ℕ) (m : ℕ)
    → (if over
        then none
        else if comment
        then some (none, x)
        else if bad
        then some (none, y)
        else some (some f, y))
      ≡ some turn
    → (over ≡ false → (length x < m) × (length y < m))
    → length turn.1 < m
shorter true comment bad f x y turn m e l = cc
shorter false true bad f x y turn m e l = omega (arith, (l refl).0, ap left_over e)
shorter false false true f x y turn m e l = omega (arith, (l refl).1, ap left_over e)
shorter false false false f x y turn m e l = omega (arith, (l refl).1, ap left_over e)

-- What a turn leaves.
read_line-shorter :
    (behind : ℕ) (p : List ℕ) (loaded : ℕ) (turn : Option Fields × List ℕ)
    → read_line behind p loaded ≡ some turn
    → length turn.1 < length p
unfolding read_line
read_line-shorter behind p loaded turn e =
    shorter (leb (length p) behind || leb usr_max_users loaded) (is_comment (skip_ws p)) _ _ _ _
      turn (length p) e
      (λ going. (
        omega (arith, some_byte going, length-next_line (skip_ws p), length-skip_ws p),
        omega (
          arith,
          some_byte going,
          length-next_line (read_fields (skip_ws p)).1,
          length-read_fields (skip_ws p),
          length-skip_ws p,
        ),
      ))
  where
    some_byte : (leb (length p) behind || leb usr_max_users loaded) ≡ false → 0 < length p
    some_byte going = ground arith

read_line-end :
    (behind : ℕ) (p : List ℕ) (loaded : ℕ) → length p ≤ 0 → read_line behind p loaded ≡ none
unfolding read_line
read_line-end behind p loaded l = rw (le→leb (length p) behind (omega arith)) refl

-- Runs of the loop `while (p < end && *p && loaded < (int)USR_MAX_USERS)`, turn by turn and to its end,
-- with the count and the tables that it ends with.
pub data Run (salts : ℕ → ℕ) (behind : ℕ) : List ℕ → ℕ → Db → ℕ × Db → Type 0 where
  ended :
      (p : List ℕ) (loaded : ℕ) (db : Db)
      → read_line behind p loaded ≡ none
      → Run salts behind p loaded db (loaded, db)
  skipped :
      (p rest : List ℕ) (loaded : ℕ) (db : Db) (r : ℕ × Db)
      → read_line behind p loaded ≡ some (none, rest)
      → Run salts behind rest loaded db r
      → Run salts behind p loaded db r
  taken :
      (p rest : List ℕ) (f : Fields) (loaded : ℕ) (db : Db) (r : ℕ × Db)
      → read_line behind p loaded ≡ some (some f, rest)
      → Run salts behind rest (loaded + 1) (add_fields (salts loaded) f db) r
      → Run salts behind p loaded db r

-- A turn, before any loop that runs from shorter texts.
turn-Run :
    (salts : ℕ → ℕ) (behind : ℕ) (p : List ℕ) (loaded : ℕ) (db : Db)
    (loop : List ℕ → ℕ → Db → ℕ × Db)
    → ((rest : List ℕ) (k : ℕ) (d : Db)
        → length rest < length p
        → Run salts behind rest k d (loop rest k d))
    → (o : Option (Option Fields × List ℕ)) → read_line behind p loaded ≡ o
    → Run salts behind p loaded db (resume salts loop o loaded db)
turn-Run salts behind p loaded db loop next none e = ended p loaded db e
turn-Run salts behind p loaded db loop next (some (none, rest)) e =
    skipped p rest loaded db _ e
      (next rest loaded db (read_line-shorter behind p loaded (none, rest) e))
turn-Run salts behind p loaded db loop next (some (some f, rest)) e = taken p rest f loaded db _ e (
    next rest (loaded + 1) (add_fields (salts loaded) f db)
      (read_line-shorter behind p loaded (some f, rest) e))

load_from-Run :
    (n : ℕ) (salts : ℕ → ℕ) (behind : ℕ) (p : List ℕ) (loaded : ℕ) (db : Db)
    → length p ≤ n
    → Run salts behind p loaded db (load_from n salts behind p loaded db)
unfolding load_from
load_from-Run zero salts behind p loaded db l = ended p loaded db (read_line-end behind p loaded l)
load_from-Run (suc n) salts behind p loaded db l =
    turn-Run salts behind p loaded db (load_from n salts behind)
      (λ rest k d shorter. load_from-Run n salts behind rest k d (omega (arith, shorter, l)))
      (read_line behind p loaded) refl

-- A line is read only below the limit.
read_line-room :
    (behind : ℕ) (p : List ℕ) (loaded : ℕ) (turn : Option Fields × List ℕ)
    → read_line behind p loaded ≡ some turn
    → loaded < usr_max_users
unfolding read_line
read_line-room behind p loaded turn e =
    elim (Bool-cases (leb (length p) behind || leb usr_max_users loaded)) [
      | inl over ↦ cc
      | inr going ↦ ground arith
    ]

Run-le :
    (salts : ℕ → ℕ) (behind : ℕ) (p : List ℕ) (loaded : ℕ) (db : Db) (r : ℕ × Db)
    → Run salts behind p loaded db r
    → loaded ≤ usr_max_users
    → r.0 ≤ usr_max_users
Run-le salts behind x k d q (ended p loaded db e) l = l
Run-le salts behind x k d q (skipped p rest loaded db r e next) l =
    Run-le salts behind rest loaded db r next l
Run-le salts behind x k d q (taken p rest f loaded db r e next) l =
    Run-le salts behind rest (loaded + 1) (add_fields (salts loaded) f db) r next
      (omega (arith, read_line-room behind p loaded (some f, rest) e))

-- On a text that is not empty, `usr_load_passwd` returns: its loop has a run from the first byte of the
-- text to its end, turn by turn as the source takes them, and what it returns are the count, at most
-- 64, and the tables at the end of that run.
pub usr_load_passwd-Run :
    (salts : ℕ → ℕ) (buf : List ℕ) (len : ℕ) (db : Db)
    → 0 < len
    → (r : ℕ × Db) × (usr_load_passwd salts buf len db ≡ (some r.0, r.1))
      × Run salts (length buf - len) buf 0 db r
      × (r.0 ≤ usr_max_users)
unfolding usr_load_passwd
usr_load_passwd-Run salts buf len db pos =
    let run = load_from-Run (length buf) salts (length buf - len) buf 0 db (omega arith) in
    (
      load_from (length buf) salts (length buf - len) buf 0 db,
      rw some_bytes refl,
      run,
      Run-le salts (length buf - len) buf 0 db _ run (omega arith),
    )
  where
    some_bytes : (len == 0) ≡ false
    some_bytes = ground arith
