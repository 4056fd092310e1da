-- ===== src/Prelude/Window.antt =====
-- The elements of a circular array from an index on, and how a write changes them.
use open_asd.Prelude.{
  ℕ, zero, suc, ◌+◌, ◌-◌, ◌%◌, ◌<◌, ◌≡◌, refl, sym, ap, ◌∙◌, ◌≢◌, List, [], ◌∷◌, ◌++◌, arith,
  length, set, get_or,
}
use native.Mathlib.Nat.{mod-lt, mod-eq_of_lt, mod-eq-sub-mod, add-zero, mod-add-mod}
use native.Mathlib.Decide.{dec_lt}
use mathlib.Core.Path.{ap₂}

module _ {ℓ} {A : Type ℓ} (slots : List A) (d : A) (n : ℕ) where
  -- The `c` slots from index `i` on; the index runs on and is taken modulo the number of slots.
  abbrev pub window : ℕ → ℕ → List A
  window i zero = []
  window i (suc c) = get_or slots (i % n) d ∷ window (i + 1) c

  pub length-window : (i c : ℕ) → length (window i c) ≡ c
  length-window i zero = refl
  length-window i (suc c) = ap suc (length-window (i + 1) c)

  -- Only the remainder of the index counts.
  pub window-mod : (i j c : ℕ) → i % n ≡ j % n → window i c ≡ window j c
  window-mod i j zero h = refl
  window-mod i j (suc c) h =
      ap₂ (λ k q. get_or slots k d ∷ q) h
        (window-mod (i + 1) (j + 1) c
          (sym (mod-add-mod i n 1) ∙ ap (λ k. (k + 1) % n) h ∙ mod-add-mod j n 1))

  pub window_of_pos :
      (i c : ℕ) → 0 < c → window i c ≡ get_or slots (i % n) d ∷ window (i + 1) (c - 1)
  window_of_pos i zero h = absurd (omega arith)
  window_of_pos i (suc c) h = ap (λ k. get_or slots (i % n) d ∷ window (i + 1) k) (omega arith)

pub get_or-set_self {ℓ} :
    {A : Type ℓ} (xs : List A) (i : ℕ) (v d : A) → i < length xs → get_or (set xs i v) i d ≡ v
get_or-set_self [] i v d h = absurd (omega arith)
get_or-set_self (x ∷ xs) zero v d h = refl
get_or-set_self (x ∷ xs) (suc i) v d h = get_or-set_self xs i v d (omega arith)

pub get_or-set_ne {ℓ} :
    {A : Type ℓ} (xs : List A) (i j : ℕ) (v d : A) → i ≢ j → get_or (set xs i v) j d ≡ get_or xs j d
get_or-set_ne [] i j v d h = refl
get_or-set_ne (x ∷ xs) zero zero v d h = absurd (h refl)
get_or-set_ne (x ∷ xs) zero (suc j) v d h = refl
get_or-set_ne (x ∷ xs) (suc i) zero v d h = refl
get_or-set_ne (x ∷ xs) (suc i) (suc j) v d h = get_or-set_ne xs i j v d (λ e. h (ap suc e))

-- Two indices less than `n` apart have different remainders.
mod-ne : (n i k : ℕ) → 0 < k → k < n → (i + k) % n ≢ i % n
mod-ne n i k h lt e = elim (dec_lt (i % n + k) n) [
  | yes p ↦ omega (arith, shift, mod-eq_of_lt p)
  | no p ↦ omega (
    arith,
    shift,
    mod-lt i {m = n} (omega arith),
    mod-eq-sub-mod {n = i % n + k} {m = n} (omega arith),
    mod-eq_of_lt {n = i % n + k - n} {m = n} (omega (arith, mod-lt i {m = n} (omega arith))),
  )
]
  where
    shift : (i % n + k) % n ≡ (i + k) % n
    shift = mod-add-mod i n k

module _ {ℓ} {A : Type ℓ} (slots : List A) (d : A) (n : ℕ) (long : length slots ≡ n) where
  -- Writing the slot behind a window that leaves room extends it by that slot.
  pub window-set :
      (i c : ℕ) (s : A)
      → c < n
      → window (set slots ((i + c) % n) s) d n i (suc c) ≡ window slots d n i c ++ (s ∷ [])
  window-set i zero s h =
      ap (λ t. t ∷ [])
        (ap (λ k. get_or (set slots (k % n) s) (i % n) d) (add-zero i)
          ∙ get_or-set_self slots (i % n) s d (omega (arith, mod-lt i {m = n} h)))
  window-set i (suc c) s h =
      ap₂ ◌∷◌
        (get_or-set_ne slots ((i + suc c) % n) (i % n) s d (mod-ne n i (suc c) (omega arith) h))
        (ap (λ k. window (set slots (k % n) s) d n (i + 1) (suc c)) (shift)
          ∙ window-set (i + 1) c s (omega arith))
    where
      shift : i + suc c ≡ i + 1 + c
      shift = omega arith
