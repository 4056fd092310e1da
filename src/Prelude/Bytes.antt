-- ===== src/Prelude/Bytes.antt =====
-- Numbers as bytes in memory, the lowest byte first.
use open_asd.Prelude.{
  ℕ, zero, suc, ◌+◌, ◌*◌, ◌/◌, ◌%◌, ◌^◌, ◌<◌, ◌≡◌, refl, ap, List, [], ◌∷◌, ◌++◌, arith, length,
}
use native.Mathlib.Nat.{pow-suc}

abbrev pub le : ℕ → ℕ → List ℕ
le zero v = []
le (suc n) v = v % 2 ^ 8 ∷ le n (v / 2 ^ 8)

abbrev pub get_le : ℕ → List ℕ → ℕ
get_le zero bytes = 0
get_le (suc n) [] = 0
get_le (suc n) (b ∷ bytes) = b + 2 ^ 8 * get_le n bytes

pub length-le : (n v : ℕ) → length (le n v) ≡ n
length-le zero v = refl
length-le (suc n) v = ap suc (length-le n (v / 2 ^ 8))

pub get_le-le : (n v : ℕ) (rest : List ℕ) → v < 256 ^ n → get_le n (le n v ++ rest) ≡ v
get_le-le zero v rest l = omega (arith, l)
get_le-le (suc n) v rest l =
    omega (arith, get_le-le n (v / 2 ^ 8) rest (omega (arith, pow-suc 256 n)))
