-- ===== src/Usr/Passwd/Token.antt =====
-- The tokens of the passwd file in kernel/usr/usr.c: how one is read, and that numbers and flags are
-- written as tokens.
use open_asd.Prelude.{
  ℕ, zero, suc, ◌+◌, ◌-◌, ◌/◌, ◌%◌, ◌^◌, ◌≤◌, ◌<◌, bit_and, ◌≡◌, refl, sym, ap, ◌∙◌, inl, inr, Bool,
  true, false, not, ◌&&◌, List, [], ◌∷◌, ◌++◌, arith, ◌==◌, Bool-cases, length, if◌then◌else◌,
}
use mathlib.Core.Path.{subst}
use open_asd.Usr.Db.{is_some}
use open_asd.Usr.Passwd.{
  u_isspace, skip_ws, take_tok, read_tok, hex_digit, all_hex, is_hex64, fmt_from, fmt_hex64,
  decimal_from, decimal, wheel_word, nologin_word, locked_word, flag_word,
}
use open_asd.Usr.Passwd.Number.{nibble-hex_digit}

abbrev pub AllPlain : List ℕ → Type 0
AllPlain [] = Unit {0}
AllPlain (c ∷ cs) = (u_isspace c ≡ false) × AllPlain cs

-- At least one byte, at most `n`, none of them a space.
pub record IsToken (n : ℕ) (s : List ℕ) : Type 0 where
  pub some_byte : 0 < length s
  pub fits : length s ≤ n
  pub plain : AllPlain s

take_tok-token :
    (n : ℕ) (s : List ℕ) (c : ℕ) (rest : List ℕ)
    → length s ≤ n
    → AllPlain s
    → u_isspace c ≡ true
    → take_tok n (s ++ (c ∷ rest)) ≡ (s, c ∷ rest)
unfolding take_tok
take_tok-token zero [] c rest l plain space = refl
take_tok-token (suc n) [] c rest l plain space = rw space refl
take_tok-token zero (x ∷ s) c rest l plain space = absurd (omega arith)
take_tok-token (suc n) (x ∷ s) c rest l plain space =
    rw (plain.0, take_tok-token n s c rest (omega arith) plain.1 space) refl

pub skip_ws-plain : (x : ℕ) (s : List ℕ) → u_isspace x ≡ false → skip_ws (x ∷ s) ≡ x ∷ s
unfolding skip_ws
skip_ws-plain x s plain = rw plain refl

skip_ws-blank : (s : List ℕ) → skip_ws (b' ' ∷ s) ≡ skip_ws s
unfolding skip_ws u_isspace
skip_ws-blank s = refl

-- The first token of a line.
pub read_tok-first :
    (n : ℕ) (s : List ℕ) (c : ℕ) (rest : List ℕ)
    → IsToken (n - 1) s
    → u_isspace c ≡ true
    → read_tok n (s ++ (c ∷ rest)) ≡ (s, c ∷ rest)
unfolding read_tok
read_tok-first n [] c rest t space = absurd (omega (arith, t.some_byte))
read_tok-first n (x ∷ s) c rest t space =
    ap (take_tok (n - 1)) (skip_ws-plain x (s ++ (c ∷ rest)) t.plain.0)
    ∙ take_tok-token (n - 1) (x ∷ s) c rest t.fits t.plain space

-- A later token, behind a space.
pub read_tok-later :
    (n : ℕ) (s : List ℕ) (c : ℕ) (rest : List ℕ)
    → IsToken (n - 1) s
    → u_isspace c ≡ true
    → read_tok n (b' ' ∷ (s ++ (c ∷ rest))) ≡ (s, c ∷ rest)
unfolding read_tok take_tok
read_tok-later n s c rest t space = blank (s ++ (c ∷ rest)) ∙ read_tok-first n s c rest t space
  where
    blank : (p : List ℕ) → read_tok n (b' ' ∷ p) ≡ read_tok n p
    blank p = ap (take_tok (n - 1)) (skip_ws-blank p)

hex_digit-plain : (d : ℕ) → d < 16 → u_isspace (hex_digit d) ≡ false
unfolding u_isspace hex_digit
hex_digit-plain d l = ground arith

fmt_from-plain : (n v : ℕ) (out : List ℕ) → AllPlain out → AllPlain (fmt_from n v out)
unfolding fmt_from
fmt_from-plain zero v out plain = plain
fmt_from-plain (suc n) v out plain =
    fmt_from-plain n (v / 2 ^ 4) (hex_digit (v % 16) ∷ out)
      (hex_digit-plain (v % 16) (omega arith), plain)

length-fmt_from : (n v : ℕ) (out : List ℕ) → length (fmt_from n v out) ≡ n + length out
unfolding fmt_from
length-fmt_from zero v out = omega arith
length-fmt_from (suc n) v out =
    omega (arith, length-fmt_from n (v / 2 ^ 4) (hex_digit (v % 16) ∷ out))

pub fmt_hex64-IsToken : (v : ℕ) → IsToken 16 (fmt_hex64 v)
unfolding fmt_hex64
fmt_hex64-IsToken v = record {
  some_byte = omega (arith, length-fmt_from 16 v []);
  fits = omega (arith, length-fmt_from 16 v []);
  plain = fmt_from-plain 16 v [] tt;
}

all_hex-digit :
    (k d : ℕ) (out : List ℕ) → d < 16 → all_hex (suc k) (hex_digit d ∷ out) ≡ all_hex k out
unfolding all_hex
all_hex-digit k d out l = ap (λ o. is_some o && all_hex k out) (nibble-hex_digit d l)

all_hex-fmt_from : (n k v : ℕ) (out : List ℕ) → all_hex (n + k) (fmt_from n v out) ≡ all_hex k out
unfolding fmt_from
all_hex-fmt_from zero k v out = ap (λ t. all_hex t out) (omega arith)
all_hex-fmt_from (suc n) k v out =
    ap (λ t. all_hex t (fmt_from n (v / 2 ^ 4) (hex_digit (v % 16) ∷ out))) (omega arith)
    ∙ all_hex-fmt_from n (suc k) (v / 2 ^ 4) (hex_digit (v % 16) ∷ out)
    ∙ all_hex-digit k (v % 16) out (omega arith)

pub is_hex64-fmt_hex64 : (v : ℕ) → is_hex64 (fmt_hex64 v) ≡ true
unfolding is_hex64 fmt_hex64 all_hex
is_hex64-fmt_hex64 v = all_hex-fmt_from 16 0 v []

digit-plain : (d : ℕ) → d < 10 → u_isspace (b'0' + d) ≡ false
unfolding u_isspace
digit-plain d l = ground arith

decimal_from-plain : (n v : ℕ) (out : List ℕ) → AllPlain out → AllPlain (decimal_from n v out)
unfolding decimal_from
decimal_from-plain zero v out plain = plain
decimal_from-plain (suc n) v out plain = elim (Bool-cases (v == 0)) [
  | inl done ↦ rw done plain
  | inr more ↦ rw more (
      decimal_from-plain n (v / 10) ((b'0' + v % 10) ∷ out)
        (digit-plain (v % 10) (omega arith), plain))
]

length-decimal_from :
    (n v : ℕ) (out : List ℕ)
    → (length out ≤ length (decimal_from n v out))
      × (length (decimal_from n v out) ≤ n + length out)
unfolding decimal_from
length-decimal_from zero v out = (omega arith, omega arith)
length-decimal_from (suc n) v out = elim (Bool-cases (v == 0)) [
  | inl done ↦ rw done (omega arith, omega arith)
  | inr more ↦
      let (low, high) = length-decimal_from n (v / 10) ((b'0' + v % 10) ∷ out) in
      rw more (omega arith, omega arith)
]

-- The digit that is written first.
decimal_from-pos : (v : ℕ) → (v == 0) ≡ false → 0 < length (decimal_from 10 v [])
unfolding decimal_from
decimal_from-pos v more =
    subst (λ b. 0 < length (if b then [] else decimal_from 9 (v / 10) ((b'0' + v % 10) ∷ [])))
      (sym more) (omega (arith, (length-decimal_from 9 (v / 10) ((b'0' + v % 10) ∷ [])).0))

pub decimal-IsToken : (v : ℕ) → IsToken 10 (decimal v)
unfolding decimal
decimal-IsToken v = elim (Bool-cases (v == 0)) [
  | inl is_zero ↦ rw is_zero (record {
    some_byte = omega arith;
    fits = omega arith;
    plain = (digit-plain 0 (omega arith), tt);
  })
  | inr more ↦ rw more (record {
    some_byte = decimal_from-pos v more;
    fits = omega (arith, (length-decimal_from 10 v []).1);
    plain = decimal_from-plain 10 v [] tt;
  })
]

word-IsToken :
    (b : Bool) (s t : List ℕ) → IsToken 7 s → IsToken 7 t → IsToken 7 (if b then s else t)
word-IsToken true s t v w = v
word-IsToken false s t v w = w

words-IsToken :
    IsToken 7 wheel_word × IsToken 7 nologin_word × IsToken 7 locked_word × IsToken 7 (b'-' ∷ [])
unfolding u_isspace
words-IsToken = (
  record {
    some_byte = omega arith;
    fits = omega arith;
    plain = (refl, (refl, (refl, (refl, (refl, tt)))));
  },
  record {
    some_byte = omega arith;
    fits = omega arith;
    plain = (refl, (refl, (refl, (refl, (refl, (refl, (refl, tt)))))));
  },
  record {
    some_byte = omega arith;
    fits = omega arith;
    plain = (refl, (refl, (refl, (refl, (refl, (refl, tt))))));
  },
  record { some_byte = omega arith; fits = omega arith; plain = (refl, tt) },
)

pub flag_word-IsToken : (flags : ℕ) → IsToken 7 (flag_word flags)
unfolding flag_word
flag_word-IsToken flags =
    let (wheel, nologin, locked, other) = words-IsToken in
    word-IsToken (not (bit_and flags 1 == 0)) _ _ wheel (
      word-IsToken (not (bit_and flags 2 == 0)) _ _ nologin
        (word-IsToken (not (bit_and flags 4 == 0)) _ _ locked other))

-- A longer array takes the token, too.
pub IsToken-weaken : (n m : ℕ) (s : List ℕ) → n ≤ m → IsToken n s → IsToken m s
IsToken-weaken n m s l t = record {
  some_byte = t.some_byte;
  fits = omega (arith, t.fits);
  plain = t.plain;
}
