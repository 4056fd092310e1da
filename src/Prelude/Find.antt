-- ===== src/Prelude/Find.antt =====
-- The loops that look through a table for the first entry that passes a test.
use open_asd.Prelude.{
  ℕ, zero, suc, ◌+◌, ◌<◌, ◌≡◌, refl, Bool, true, false, Option, none, some, List, [], ◌∷◌, ◌++◌,
  arith, length, set, get_or, if◌then◌else◌,
}

-- The code behind an early return on none.
abbrev pub on_some {ℓ κ} : {A : Type ℓ} {B : Type κ} → Option A → (A → Option B) → Option B
on_some none f = none
on_some (some a) f = f a

pub on_some-eq-some {ℓ κ} :
    {A : Type ℓ} {B : Type κ} (o : Option A) (f : A → Option B) (b : B)
    → on_some o f ≡ some b
    → (a : A) × (o ≡ some a) × (f a ≡ some b)
on_some-eq-some none f b e = cc
on_some-eq-some (some a) f b e = (a, refl, e)

module _ {ℓ} {A : Type ℓ} (p : A → Bool) where
  unfoldable pub find : List A → Option A
  find [] = none
  find (x ∷ xs) = if p x then some x else find xs

  unfoldable pub find_index : List A → Option ℕ
  find_index [] = none
  find_index (x ∷ xs) =
      if p x then some 0 else elim (find_index xs) [ none ↦ none | some i ↦ some (suc i) ]

  unfoldable pub count : List A → ℕ
  count [] = 0
  count (x ∷ xs) = (if p x then 1 else 0) + count xs

  pub find_index-some :
      (xs : List A) (i : ℕ) (d : A)
      → find_index xs ≡ some i
      → (i < length xs) × (p (get_or xs i d) ≡ true) × (find xs ≡ some (get_or xs i d))
  unfolding find find_index
  find_index-some [] i d e = cc
  find_index-some (x ∷ xs) zero d e = ground arith
  find_index-some (x ∷ xs) (suc i) d e = ground (arith, find_index-some xs i d)

  pub find_index-none : (xs : List A) → find_index xs ≡ none → find xs ≡ none
  unfolding find find_index
  find_index-none [] e = refl
  find_index-none (x ∷ xs) e = ground (arith, find_index-none xs)

  pub find-some : (xs : List A) (a : A) → find xs ≡ some a → p a ≡ true
  unfolding find
  find-some [] a e = cc
  find-some (x ∷ xs) a e = ground (arith, find-some xs a)

  -- A write that fails the test over an entry that fails it changes nothing.
  pub find-set_ne :
      (xs : List A) (i : ℕ) (v d : A)
      → p (get_or xs i d) ≡ false
      → p v ≡ false
      → find (set xs i v) ≡ find xs
  unfolding find
  find-set_ne [] i v d e f = refl
  find-set_ne (x ∷ xs) zero v d e f = ground arith
  find-set_ne (x ∷ xs) (suc i) v d e f = ground (arith, find-set_ne xs i v d e f)

  -- Writing over the entry found.
  pub find-set_found :
      (xs : List A) (i : ℕ) (v : A)
      → find_index xs ≡ some i
      → p v ≡ true
      → find (set xs i v) ≡ some v
  unfolding find find_index
  find-set_found [] i v e f = cc
  find-set_found (x ∷ xs) zero v e f = ground arith
  find-set_found (x ∷ xs) (suc i) v e f = ground (arith, find-set_found xs i v)

  -- Writing where nothing was found.
  pub find-set_new :
      (xs : List A) (i : ℕ) (v : A)
      → find xs ≡ none
      → i < length xs
      → p v ≡ true
      → find (set xs i v) ≡ some v
  unfolding find
  find-set_new [] i v e l f = absurd (omega arith)
  find-set_new (x ∷ xs) zero v e l f = ground arith
  find-set_new (x ∷ xs) (suc i) v e l f = ground (arith, find-set_new xs i v)

  -- The same two, for the place.
  pub find_index-set_found :
      (xs : List A) (i : ℕ) (v : A)
      → find_index xs ≡ some i
      → p v ≡ true
      → find_index (set xs i v) ≡ some i
  unfolding find_index
  find_index-set_found [] i v e f = cc
  find_index-set_found (x ∷ xs) zero v e f = ground arith
  find_index-set_found (x ∷ xs) (suc i) v e f = ground (arith, find_index-set_found xs i v)

  pub find_index-set_new :
      (xs : List A) (i : ℕ) (v : A)
      → find_index xs ≡ none
      → i < length xs
      → p v ≡ true
      → find_index (set xs i v) ≡ some i
  unfolding find_index
  find_index-set_new [] i v e l f = absurd (omega arith)
  find_index-set_new (x ∷ xs) zero v e l f = ground arith
  find_index-set_new (x ∷ xs) (suc i) v e l f = ground (arith, find_index-set_new xs i v)

  pub count-set :
      (xs : List A) (i : ℕ) (v d : A)
      → i < length xs
      → count (set xs i v) + (if p (get_or xs i d) then 1 else 0)
        ≡ count xs + (if p v then 1 else 0)
  unfolding count
  count-set [] i v d l = absurd (omega arith)
  count-set (x ∷ xs) zero v d l = omega arith
  count-set (x ∷ xs) (suc i) v d l = omega (arith, count-set xs i v d (omega arith))

  pub find_of_count : (xs : List A) → count xs ≡ 0 → find xs ≡ none
  unfolding find count
  find_of_count [] e = refl
  find_of_count (x ∷ xs) e = ground (arith, find_of_count xs)

  pub count_of_find : (xs : List A) → find xs ≡ none → count xs ≡ 0
  unfolding find count
  count_of_find [] e = refl
  count_of_find (x ∷ xs) e = ground (arith, count_of_find xs)

  pub count-append : (xs ys : List A) → count (xs ++ ys) ≡ count xs + count ys
  unfolding count
  count-append [] ys = omega arith
  count-append (x ∷ xs) ys = omega (arith, count-append xs ys)
