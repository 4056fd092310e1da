-- ===== src/Usr/Mask.antt =====
-- The group bitmasks of kernel/usr/usr.c: `|= 1u << gid` and `&= ~(1u << gid)` on 32 bits.
use open_asd.Prelude.{
  ℕ, ◌-◌, ◌^◌, ◌<◌, bit_and, bit_or, ◌≡◌, refl, Bool, true, ◌&&◌, arith, ◌==◌, ==_iff,
  if◌then◌else◌,
}
use open_asd.Prelude.Bits.{testbit, testbit-bit_or, testbit-bit_and, testbit-le}
use open_asd.Prelude.Range.{check_below, check_below-at}

unfoldable pub set_bit : ℕ → ℕ → ℕ
set_bit mask g = bit_or mask (2 ^ g)

unfoldable pub clear_bit : ℕ → ℕ → ℕ
clear_bit mask g = bit_and mask (2 ^ 32 - 1 - 2 ^ g)

one_bit : ℕ → ℕ → Bool
one_bit g k =
    (testbit (2 ^ g) k == (if g == k then 1 else 0))
    && (testbit (2 ^ 32 - 1 - 2 ^ g) k == (if g == k then 0 else 1))

one_bit_table : check_below (λ g. check_below (one_bit g) 32) 32 ≡ true
unfolding check_below one_bit
one_bit_table = refl

one_bit_lem :
    (g k : ℕ)
    → g < 32
    → k < 32
    → (testbit (2 ^ g) k ≡ (if g == k then 1 else 0))
      × (testbit (2 ^ 32 - 1 - 2 ^ g) k ≡ (if g == k then 0 else 1))
unfolding one_bit
one_bit_lem g k hg hk =
    let t =
      check_below-at (one_bit g) 32 hk
        (check_below-at (λ g. check_below (one_bit g) 32) 32 hg one_bit_table) in
    ((==_iff _ _).0 (and_true t).0, (==_iff _ _).0 (and_true t).1)
  where
    and_true : {a b : Bool} → (a && b) ≡ true → (a ≡ true) × (b ≡ true)
    and_true h = ground arith

-- Setting a bit sets that bit and no other.
pub testbit-set_bit :
    (mask g k : ℕ)
    → g < 32
    → k < 32
    → testbit (set_bit mask g) k ≡ (if g == k then 1 else testbit mask k)
unfolding set_bit
testbit-set_bit mask g k hg hk =
    ground (arith, testbit-bit_or k mask (2 ^ g), one_bit_lem g k hg hk, testbit-le mask k)

-- Clearing a bit clears that bit and no other.
pub testbit-clear_bit :
    (mask g k : ℕ)
    → g < 32
    → k < 32
    → testbit (clear_bit mask g) k ≡ (if g == k then 0 else testbit mask k)
unfolding clear_bit
testbit-clear_bit mask g k hg hk =
    ground
      (arith, testbit-bit_and k mask (2 ^ 32 - 1 - 2 ^ g), one_bit_lem g k hg hk, testbit-le mask k)
