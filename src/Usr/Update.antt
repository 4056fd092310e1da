-- ===== src/Usr/Update.antt =====
-- Changes through the pointer that a search returns: what other searches find afterwards.
use open_asd.Prelude.{
  ◌≤◌, ◌≡◌, refl, inl, inr, Bool, true, false, Option, none, some, List, [], ◌∷◌, ◌++◌, arith,
  Bool-cases, length, if◌then◌else◌,
}
use open_asd.Prelude.Find.{find, count, count_of_find, count-append}

-- A change of the first entry that passes a test, if there is one.
unfoldable pub update {ℓ} : {A : Type ℓ} → (A → Bool) → (A → A) → List A → List A
update p f [] = []
update p f (x ∷ xs) = if p x then f x ∷ xs else x ∷ update p f xs

abbrev pub option_map {ℓ κ} : {A : Type ℓ} {B : Type κ} → (A → B) → Option A → Option B
option_map f none = none
option_map f (some a) = some (f a)

module _ {ℓ} {A : Type ℓ} (p : A → Bool) (f : A → A) where
  pub length-update : (xs : List A) → length (update p f xs) ≡ length xs
  unfolding update
  length-update [] = refl
  length-update (x ∷ xs) = ground (arith, length-update xs)

  -- The entry found is the changed one.
  pub find-update :
      (xs : List A) → ((x : A) → p (f x) ≡ p x) → find p (update p f xs) ≡ option_map f (find p xs)
  unfolding update find
  find-update [] keeps = refl
  find-update (x ∷ xs) keeps = elim (Bool-cases (p x)) [
    | inl hit ↦ rw (hit, keeps x, hit) refl
    | inr miss ↦ rw (miss, miss) (find-update xs keeps)
  ]

  module _ (q : A → Bool) (keeps : (x : A) → q (f x) ≡ q x) where
    pub count-update : (xs : List A) → count q (update p f xs) ≡ count q xs
    unfolding update count
    count-update [] = refl
    count-update (x ∷ xs) = elim (Bool-cases (p x)) [
      | inl hit ↦ rw (hit, keeps x) refl
      | inr miss ↦ rw (miss, count-update xs) refl
    ]

    -- A search that the changed entry does not pass finds what it found.
    pub find-update_ne :
        (xs : List A) → ((x : A) → p x ≡ true → q x ≡ false) → find q (update p f xs) ≡ find q xs
    unfolding update find
    find-update_ne [] apart = refl
    find-update_ne (x ∷ xs) apart = elim (Bool-cases (p x)) [
      | inl hit ↦ rw (hit, keeps x, apart x hit) refl
      | inr miss ↦ rw (miss, find-update_ne xs apart) refl
    ]

module _ {ℓ} {A : Type ℓ} (p : A → Bool) where
  -- One more entry passes the test at most once if none did.
  pub count-snoc_new : (xs : List A) (a : A) → find p xs ≡ none → count p (xs ++ (a ∷ [])) ≤ 1
  unfolding count
  count-snoc_new xs a e = ground (arith, count-append p xs (a ∷ []), count_of_find p xs e)

  pub count-snoc_other : (xs : List A) (a : A) → p a ≡ false → count p (xs ++ (a ∷ [])) ≡ count p xs
  unfolding count
  count-snoc_other xs a e = ground (arith, count-append p xs (a ∷ []))

  pub find-snoc :
      (xs : List A) (a : A) → find p xs ≡ none → p a ≡ true → find p (xs ++ (a ∷ [])) ≡ some a
  unfolding find
  find-snoc [] a e y = ground arith
  find-snoc (x ∷ xs) a e y = ground (arith, find-snoc xs a)

  pub find-append_other : (xs : List A) (a : A) → p a ≡ false → find p (xs ++ (a ∷ [])) ≡ find p xs
  unfolding find
  find-append_other [] a n = ground arith
  find-append_other (x ∷ xs) a n = ground (arith, find-append_other xs a)
