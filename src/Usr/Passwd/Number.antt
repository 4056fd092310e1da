-- ===== src/Usr/Passwd/Number.antt =====
-- The numbers of the passwd file in kernel/usr/usr.c are read back as they were written.
use open_asd.Prelude.{
  ℕ, zero, suc, ◌+◌, ◌*◌, ◌/◌, ◌%◌, ◌^◌, ◌<◌, bit_or, ◌≡◌, refl, sym, ap, ◌∙◌, inl, inr, true, none,
  some, List, [], ◌∷◌, arith, ◌==◌, ==_iff, Bool-cases,
}
use open_asd.Prelude.Bits.{bit_or-low}
use native.Mathlib.Nat.{pow-suc}
use open_asd.Usr.Passwd.{
  nibble, hex_digit, fmt_from, fmt_hex64, parse_from, parse_hex64, u_isdigit, atou_from, u_atou,
  decimal_from, decimal,
}

pub nibble-hex_digit : (d : ℕ) → d < 16 → nibble (hex_digit d) ≡ some d
unfolding nibble hex_digit
nibble-hex_digit d l = ground arith

parse-digit :
    (k d : ℕ) (out : List ℕ) (v : ℕ)
    → d < 16
    → parse_from (suc k) (hex_digit d ∷ out) v ≡ parse_from k out (bit_or (v * 2 ^ 4 % 2 ^ 64) d)
unfolding parse_from
parse-digit k d out v l =
    ap (λ o. elim o [ none ↦ v | some nib ↦ parse_from k out (bit_or (v * 2 ^ 4 % 2 ^ 64) nib) ])
      (nibble-hex_digit d l)

parse-nil : (v : ℕ) → parse_from 0 [] v ≡ v
unfolding parse_from
parse-nil v = refl

-- The digits of a number, read before what follows.
parse-fmt :
    (n k v : ℕ) (out : List ℕ)
    → v < 16 ^ n
    → v < 2 ^ 64
    → parse_from (n + k) (fmt_from n v out) 0 ≡ parse_from k out v
unfolding fmt_from
parse-fmt zero k v out l h =
    ap (λ t. parse_from t out 0) (omega arith) ∙ ap (parse_from k out) (omega (arith, l))
parse-fmt (suc n) k v out l h =
    ap (λ t. parse_from t (fmt_from n (v / 2 ^ 4) (hex_digit (v % 16) ∷ out)) 0) (omega arith)
    ∙ parse-fmt n (suc k) (v / 2 ^ 4) (hex_digit (v % 16) ∷ out) (omega (arith, pow-suc 16 n))
        (omega arith)
    ∙ parse-digit k (v % 16) out (v / 2 ^ 4) (omega arith)
    ∙ ap (parse_from k out) digit
  where
    digit : bit_or (v / 2 ^ 4 * 2 ^ 4 % 2 ^ 64) (v % 16) ≡ v
    digit =
        ap (λ t. bit_or t (v % 16)) (omega arith)
        ∙ bit_or-low 4 (v / 2 ^ 4) (v % 16) (omega arith)
        ∙ omega arith

pub parse_hex64-fmt_hex64 : (v : ℕ) → v < 2 ^ 64 → parse_hex64 (fmt_hex64 v) ≡ v
unfolding parse_hex64 fmt_hex64
parse_hex64-fmt_hex64 v l = parse-fmt 16 0 v [] l l ∙ parse-nil v

isdigit : (d : ℕ) → d < 10 → u_isdigit (b'0' + d) ≡ true
unfolding u_isdigit
isdigit d l = ground arith

atou-nil : (v : ℕ) → atou_from [] v ≡ v
unfolding atou_from
atou-nil v = refl

atou-digit :
    (d : ℕ) (out : List ℕ) (v : ℕ)
    → d < 10
    → atou_from ((b'0' + d) ∷ out) v ≡ atou_from out ((v * 10 + d) % 2 ^ 32)
unfolding atou_from
atou-digit d out v l = rw digit (ap (λ t. atou_from out ((v * 10 + t) % 2 ^ 32)) (omega arith))
  where
    digit : u_isdigit (b'0' + d) ≡ true
    digit = isdigit d l

decimal_from-atou :
    (n v : ℕ) (out : List ℕ)
    → v < 10 ^ n
    → v < 2 ^ 32
    → atou_from (decimal_from n v out) 0 ≡ atou_from out v
unfolding decimal_from
decimal_from-atou zero v out l h = ap (atou_from out) (omega (arith, l))
decimal_from-atou (suc n) v out l h = elim (Bool-cases (v == 0)) [
  | inl none_left ↦ rw none_left (ap (atou_from out) (sym ((==_iff v 0).0 none_left)))
  | inr more ↦ rw more (
      decimal_from-atou n (v / 10) ((b'0' + v % 10) ∷ out) (omega (arith, pow-suc 10 n))
        (omega arith)
      ∙ atou-digit (v % 10) out (v / 10) (omega arith)
      ∙ ap (atou_from out) value)
]
  where
    value : (v / 10 * 10 + v % 10) % 2 ^ 32 ≡ v
    value = omega arith

-- Read before a byte that is no digit.
pub u_atou-decimal : (v : ℕ) → v < 2 ^ 32 → u_atou (decimal v) ≡ v
unfolding u_atou decimal
u_atou-decimal v l = elim (Bool-cases (v == 0)) [
  | inl is_zero ↦
      rw is_zero (atou-digit 0 [] 0 (omega arith) ∙ atou-nil 0 ∙ sym ((==_iff v 0).0 is_zero))
  | inr more ↦ rw more (decimal_from-atou 10 v [] (omega arith) l ∙ atou-nil v)
]
