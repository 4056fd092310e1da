-- ===== src/Prelude/Bits.antt =====
-- Laws of the bit operations at variables, from their meaning as recursions on binary digits.
use Prim.Native.Nat.{
  ℕ, zero, suc, ◌+◌, ◌-◌, ◌*◌, ◌/◌, ◌%◌, ◌^◌, ◌≤◌, ◌<◌, ◌∣◌, min, bit_and, bit_or, max, digits,
  bit_and-bitwise, bit_or-bitwise,
}
use mathlib.Core.Path.{◌≡◌, refl, sym, ap, ap₂, ◌∙◌}
use native.Mathlib.Omega.{arith}
use native.Mathlib.Nat.{
  mul-add, two-pow-succ, mul-add-mod_self_left, mod-eq_of_lt, mod-lt, div-add-mod, mod_self,
  pow-suc, div-div-eq-div-mul, dvd_refl, dvd-mul_right_of_dvd,
}
use native.Mathlib.Decide.{dec_lt, dec_le}

-- Fuel past the first number is never used.
module _ (last : ℕ → ℕ) (op : ℕ → ℕ → ℕ) where
  one_spare : (x y fuel : ℕ) → x ≤ fuel → digits last op (suc fuel) x y ≡ digits last op fuel x y
  one_spare zero y zero enough = refl
  one_spare zero y (suc fuel) enough = refl
  one_spare (suc x) y zero enough = absurd (omega arith)
  one_spare (suc x) y (suc fuel) enough =
      ap (λ t. t * 2 + op (suc x % 2) (y % 2)) (one_spare (suc x / 2) (y / 2) fuel (omega arith))

  all_spare :
      (fuel most x y : ℕ)
      → fuel ≤ most
      → x ≤ fuel
      → digits last op most x y ≡ digits last op fuel x y
  all_spare fuel zero x y low enough = ap (λ k. digits last op k x y) {x = 0} (omega arith)
  all_spare fuel (suc most) x y low enough = elim (dec_le fuel most) [
    | yes less ↦ one_spare x y most (omega arith) ∙ all_spare fuel most x y less enough
    | no same ↦ ap (λ k. digits last op k x y) {x = suc most} (omega arith)
  ]

  lowest_digit :
      (x y : ℕ)
      → digits last op (suc x) (suc x) y
        ≡ digits last op (suc x / 2) (suc x / 2) (y / 2) * 2 + op (suc x % 2) (y % 2)
  lowest_digit x y =
      ap (λ t. t * 2 + op (suc x % 2) (y % 2))
        (all_spare (suc x / 2) x (suc x / 2) (y / 2) (omega arith) (omega arith))

nothing_and : (y : ℕ) → bit_and 0 y ≡ 0
nothing_and = bit_and-bitwise 0

pub bit_and_step : (a b : ℕ) → bit_and a b ≡ bit_and (a / 2) (b / 2) * 2 + min (a % 2) (b % 2)
bit_and_step zero y = nothing_and y ∙ omega (arith, nothing_and (y / 2))
bit_and_step (suc x) y =
    bit_and-bitwise (suc x) y
    ∙ lowest_digit (λ _. zero) min x y
    ∙ ap (λ t. t * 2 + min (suc x % 2) (y % 2)) (sym (bit_and-bitwise (suc x / 2) (y / 2)))

-- Induction on a number by halves.
halving {ℓ} :
    (P : ℕ → Type ℓ) → P 0 → ((n : ℕ) → P (suc n / 2) → P (suc n)) → (bound n : ℕ) → n ≤ bound → P n
halving P base step bound zero h = base
halving P base step zero (suc n) h = absurd (omega arith)
halving P base step (suc bound) (suc n) h =
    step n (halving P base step bound (suc n / 2) (omega arith))

pub bit_and-zero : (a : ℕ) → bit_and a 0 ≡ 0
bit_and-zero a =
    halving (λ n. bit_and n 0 ≡ 0) refl (λ n ih. omega (arith, bit_and_step (suc n) 0)) a a
      (omega arith)

pub bit_and_self : (a : ℕ) → bit_and a a ≡ a
bit_and_self a =
    halving (λ n. bit_and n n ≡ n) refl (λ n ih. omega (arith, bit_and_step (suc n) (suc n))) a a
      (omega arith)

pub pow_pos : (k : ℕ) → 0 < 2 ^ k
pow_pos zero = omega arith
pow_pos (suc k) = omega (arith, two-pow-succ k, pow_pos k)

half_mod : (a p : ℕ) → 0 < p → a % (p + p) ≡ a / 2 % p * 2 + a % 2
half_mod a p h =
    ap (λ t. t % (p + p)) split
    ∙ mul-add-mod_self_left (p + p) (a / 2 / p) (a / 2 % p * 2 + a % 2)
    ∙ mod-eq_of_lt (omega (arith, mod-lt (a / 2) h))
  where
    split : a ≡ (p + p) * (a / 2 / p) + (a / 2 % p * 2 + a % 2)
    split = omega (arith, ap (λ (t : ℕ). t * 2) (div-add-mod (a / 2) p))

-- A mask of k ones keeps the remainder of the division by 2 ^ k.
pub bit_and_mask : (k a : ℕ) → bit_and a (2 ^ k - 1) ≡ a % 2 ^ k
bit_and_mask zero a = omega (arith, bit_and-zero a)
bit_and_mask (suc k) a =
    bit_and_step a (2 ^ suc k - 1)
    ∙ ap₂ (λ m r. bit_and (a / 2) m * 2 + r) half rest
    ∙ ap (λ t. t * 2 + a % 2) (bit_and_mask k (a / 2))
    ∙ sym (half_mod a (2 ^ k) (pow_pos k))
    ∙ ap (λ t. a % t) (sym (two-pow-succ k))
  where
    half : (2 ^ suc k - 1) / 2 ≡ 2 ^ k - 1
    half = omega (arith, two-pow-succ k, pow_pos k)

    rest : min (a % 2) ((2 ^ suc k - 1) % 2) ≡ a % 2
    rest = omega (arith, two-pow-succ k, pow_pos k)

-- n & (n - 1) is 0 for no number above 0 but the powers of 2.
pow2_fuel : (f n : ℕ) → n ≤ f → 0 < n → bit_and n (n - 1) ≡ 0 → (k : ℕ) × (n ≡ 2 ^ k)
pow2_fuel zero n h p e = absurd (omega arith)
pow2_fuel (suc f) n h p e = elim (dec_lt 0 (n % 2)) [
  | yes odd ↦ (0, omega (arith, step, low odd, bit_and_self (n / 2)))
  | no even ↦
      let (k, q) =
        pow2_fuel f (n / 2) (omega arith) (omega arith) (omega (arith, step, high even)) in
      (suc k, omega (arith, q, two-pow-succ k))
]
  where
    step : bit_and n (n - 1) ≡ bit_and (n / 2) ((n - 1) / 2) * 2 + min (n % 2) ((n - 1) % 2)
    step = bit_and_step n (n - 1)

    low : 0 < n % 2 → bit_and (n / 2) ((n - 1) / 2) ≡ bit_and (n / 2) (n / 2)
    low odd = ap (bit_and (n / 2)) (omega arith)

    high : ¬ (0 < n % 2) → bit_and (n / 2) ((n - 1) / 2) ≡ bit_and (n / 2) (n / 2 - 1)
    high even = ap (bit_and (n / 2)) (omega arith)

pub pow2_of_bit_and : (n : ℕ) → 0 < n → bit_and n (n - 1) ≡ 0 → (k : ℕ) × (n ≡ 2 ^ k)
pow2_of_bit_and n = pow2_fuel n n (omega arith)

pub bit_and-pow2 : (k : ℕ) → bit_and (2 ^ k) (2 ^ k - 1) ≡ 0
bit_and-pow2 k = bit_and_mask k (2 ^ k) ∙ mod_self (2 ^ k)

le-zero : {k : ℕ} → k ≤ 0 → k ≡ 0
le-zero h = omega arith

pub pow2-dvd : (k m : ℕ) → k ≤ m → 2 ^ k ∣ 2 ^ m
pow2-dvd k zero h = rw (le-zero h) (dvd_refl (2 ^ 0))
pow2-dvd k (suc m) h = elim (dec_lt k (suc m)) [
  | yes p ↦ rw (pow-suc 2 m) (dvd-mul_right_of_dvd (2 ^ k) (pow2-dvd k m (omega arith)) 2)
  | no p ↦ rw (last p) (dvd_refl (2 ^ suc m))
]
  where
    last : ¬ (k < suc m) → k ≡ suc m
    last p = omega arith

pub pow2-lt : (k m : ℕ) → k < m → 2 ^ k < 2 ^ m
pow2-lt k zero h = absurd (omega arith)
pow2-lt k (suc m) h = elim (dec_lt k m) [
  | yes p ↦ omega (arith, pow2-lt k m p, two-pow-succ m)
  | no p ↦ rw (last p) (omega (arith, two-pow-succ m, pow_pos m))
]
  where
    last : ¬ (k < m) → k ≡ m
    last p = omega arith

pub pow2-le : (k m : ℕ) → k ≤ m → 2 ^ k ≤ 2 ^ m
pow2-le k m h = elim (dec_lt k m) [
  | yes p ↦ omega (arith, pow2-lt k m p)
  | no p ↦ rw (same p) (omega arith)
]
  where
    same : ¬ (k < m) → k ≡ m
    same p = omega arith

bit_and_pow_step : (a b q p : ℕ) → b ≡ q * p → (b * 2) + 0 ≡ q * (p + p)
bit_and_pow_step a b q p e = omega (arith, e)

-- A mask of one bit picks that bit.
pub bit_and_pow : (k a : ℕ) → bit_and a (2 ^ k) ≡ a / 2 ^ k % 2 * 2 ^ k
bit_and_pow zero a = bit_and_mask 1 a ∙ omega arith
bit_and_pow (suc k) a =
    bit_and_step a (2 ^ suc k)
    ∙ ap₂ (λ m r. bit_and (a / 2) m * 2 + r) half rest
    ∙ bit_and_pow_step a (bit_and (a / 2) (2 ^ k)) (a / 2 / 2 ^ k % 2) (2 ^ k)
        (bit_and_pow k (a / 2))
    ∙ ap₂ (λ q p. q % 2 * p) (quotient ∙ ap (λ t. a / t) (sym (two-pow-succ k)))
        (sym (two-pow-succ k))
  where
    half : 2 ^ suc k / 2 ≡ 2 ^ k
    half = omega (arith, two-pow-succ k)

    rest : min (a % 2) (2 ^ suc k % 2) ≡ 0
    rest = omega (arith, two-pow-succ k)

    quotient : a / 2 / 2 ^ k ≡ a / (2 ^ k + 2 ^ k)
    quotient = div-div-eq-div-mul a 2 (2 ^ k) ∙ ap (λ t. a / t) (omega arith)

-- Only the digits of the second number count.
pub bit_and-low : (k m n : ℕ) → n < 2 ^ k → bit_and (m % 2 ^ k) n ≡ bit_and m n
bit_and-low zero m n h =
    ap (bit_and (m % 1)) none_left
    ∙ bit_and-zero (m % 1)
    ∙ sym (ap (bit_and m) none_left ∙ bit_and-zero m)
  where
    none_left : n ≡ 0
    none_left = omega arith
bit_and-low (suc k) m n h =
    bit_and_step (m % 2 ^ suc k) n
    ∙ ap₂ (λ a b. bit_and a (n / 2) * 2 + min b (n % 2)) half low
    ∙ ap (λ t. t * 2 + min (m % 2) (n % 2))
        (bit_and-low k (m / 2) (n / 2) (omega (arith, two-pow-succ k)))
    ∙ sym (bit_and_step m n)
  where
    digit : m % 2 ^ suc k ≡ m / 2 % 2 ^ k * 2 + m % 2
    digit = ap (λ t. m % t) (two-pow-succ k) ∙ half_mod m (2 ^ k) (pow_pos k)

    half : m % 2 ^ suc k / 2 ≡ m / 2 % 2 ^ k
    half = omega (arith, digit)

    low : m % 2 ^ suc k % 2 ≡ m % 2
    low = omega (arith, digit)

pub bit_or_step : (a b : ℕ) → bit_or a b ≡ bit_or (a / 2) (b / 2) * 2 + max (a % 2) (b % 2)
bit_or_step zero y = bit_or-bitwise 0 y ∙ omega (arith, bit_or-bitwise 0 (y / 2))
bit_or_step (suc x) y =
    bit_or-bitwise (suc x) y
    ∙ lowest_digit (λ b. b) max x y
    ∙ ap (λ t. t * 2 + max (suc x % 2) (y % 2)) (sym (bit_or-bitwise (suc x / 2) (y / 2)))

-- Bit `k` of a number.
abbrev pub testbit : ℕ → ℕ → ℕ
testbit n k = n / 2 ^ k % 2

testbit-suc : (n k : ℕ) → testbit n (suc k) ≡ testbit (n / 2) k
testbit-suc n k =
    ap (λ t. n / t % 2) (two-pow-succ k ∙ twice)
    ∙ ap (λ t. t % 2) (sym (div-div-eq-div-mul n 2 (2 ^ k)))
  where
    twice : 2 ^ k + 2 ^ k ≡ 2 * 2 ^ k
    twice = omega arith

pub testbit-bit_or : (k a b : ℕ) → testbit (bit_or a b) k ≡ max (testbit a k) (testbit b k)
testbit-bit_or zero a b = omega (arith, bit_or_step a b)
testbit-bit_or (suc k) a b =
    testbit-suc (bit_or a b) k
    ∙ ap (λ t. testbit t k) half
    ∙ testbit-bit_or k (a / 2) (b / 2)
    ∙ sym (ap₂ max (testbit-suc a k) (testbit-suc b k))
  where
    half : bit_or a b / 2 ≡ bit_or (a / 2) (b / 2)
    half = omega (arith, bit_or_step a b)

pub testbit-bit_and : (k a b : ℕ) → testbit (bit_and a b) k ≡ min (testbit a k) (testbit b k)
testbit-bit_and zero a b = omega (arith, bit_and_step a b)
testbit-bit_and (suc k) a b =
    testbit-suc (bit_and a b) k
    ∙ ap (λ t. testbit t k) half
    ∙ testbit-bit_and k (a / 2) (b / 2)
    ∙ sym (ap₂ min (testbit-suc a k) (testbit-suc b k))
  where
    half : bit_and a b / 2 ≡ bit_and (a / 2) (b / 2)
    half = omega (arith, bit_and_step a b)

pub testbit-le : (n k : ℕ) → testbit n k ≤ 1
testbit-le n k = omega arith

pub bit_or-zero : (a : ℕ) → bit_or a 0 ≡ a
bit_or-zero a =
    halving (λ n. bit_or n 0 ≡ n) refl (λ n ih. omega (arith, bit_or_step (suc n) 0)) a a
      (omega arith)

-- The low bits of a multiple of a power of two are free.
pub bit_or-low : (k v d : ℕ) → d < 2 ^ k → bit_or (v * 2 ^ k) d ≡ v * 2 ^ k + d
bit_or-low zero v d l =
    ap (bit_or (v * 2 ^ zero)) (omega arith) ∙ bit_or-zero (v * 2 ^ zero) ∙ omega arith
bit_or-low (suc k) v d l =
    ap (λ t. bit_or t d) twice
    ∙ omega (
      arith,
      twice,
      bit_or_step (v * 2 ^ k * 2) d,
      ap (λ t. bit_or t (d / 2)) half,
      bit_or-low k v (d / 2) low,
    )
  where
    twice : v * 2 ^ suc k ≡ v * 2 ^ k * 2
    twice = ap (λ t. v * t) (two-pow-succ k) ∙ mul-add v (2 ^ k) (2 ^ k) ∙ omega arith

    half : v * 2 ^ k * 2 / 2 ≡ v * 2 ^ k
    half = omega arith

    low : d / 2 < 2 ^ k
    low = omega (arith, two-pow-succ k)
