-- ===== src/Prelude/Int.antt =====
-- The integers over the native numbers, under the library's names.
use Prim.Native.Nat.{ℕ, zero, suc, ◌+◌, ◌-◌, ◌/◌, ◌%◌, ◌^◌}
use mathlib.Core.Bool.{Bool, true, false}
use open_asd.Prelude.Tests.{ltb, if◌then◌else◌}

infixl 6 ◌+ℤ◌ ◌-ℤ◌
pub data ℤ : Type 0 where
  pos : ℕ → ℤ
  negsuc : ℕ → ℤ

-- `m - n`
abbrev pub sub_nat_nat : ℕ → ℕ → ℤ
sub_nat_nat m n = if ltb m n then negsuc (n - m - 1) else pos (m - n)

abbrev pub ◌+ℤ◌ : ℤ → ℤ → ℤ
pos m +ℤ pos n = pos (m + n)
pos m +ℤ negsuc n = sub_nat_nat m (suc n)
negsuc m +ℤ pos n = sub_nat_nat n (suc m)
negsuc m +ℤ negsuc n = negsuc (suc (m + n))

abbrev pub neg_nat : ℕ → ℤ
neg_nat zero = pos 0
neg_nat (suc n) = negsuc n

abbrev pub neg : ℤ → ℤ
neg (pos n) = neg_nat n
neg (negsuc n) = pos (suc n)

abbrev pub ◌-ℤ◌ : ℤ → ℤ → ℤ
a -ℤ b = a +ℤ neg b

-- Division as in C, towards 0.
abbrev pub quot : ℤ → ℕ → ℤ
quot (pos n) d = pos (n / d)
quot (negsuc n) d = neg_nat (suc n / d)

abbrev pub is_neg : ℤ → Bool
is_neg (pos n) = false
is_neg (negsuc n) = true

-- The value of the low `w` bits as a signed number.
abbrev pub wrap_signed : ℕ → ℤ → ℤ
wrap_signed w (pos n) =
    if ltb (n % 2 ^ w) (2 ^ (w - 1)) then pos (n % 2 ^ w) else negsuc (2 ^ w - 1 - n % 2 ^ w)
wrap_signed w (negsuc n) =
    if ltb (n % 2 ^ w) (2 ^ (w - 1)) then negsuc (n % 2 ^ w) else pos (2 ^ w - 1 - n % 2 ^ w)
