-- ===== src/Sched/Tree/Order.antt =====
-- What `rb_insert` does to the nodes of a tree, from left to right: rotations and colors do not
-- matter, and a new node stands behind all nodes whose key is not greater.
use open_asd.Prelude.{
  ℕ, ◌≤◌, ◌≡◌, refl, sym, ap, ◌∙◌, inl, inr, true, false, List, [], ◌∷◌, ◌++◌, arith, ltb,
  Bool-cases, if◌then◌else◌,
}
use mathlib.Core.Path.{ap₂}
use mathlib.Core.List.{append_assoc, append-nil}
use open_asd.Sched.Tree.{
  Color, red, black, Tree, leaf, node, Frame, left_of, right_of, rb_rotate_left, rb_rotate_right,
  paint, is_red, close_frame, frame_is_red, zip, left_parent, right_parent, fixup_loop,
  rb_insert_fixup, descend, rb_insert,
}

module _ {A : Type 0} where
  unfoldable pub inorder : Tree A → List A
  inorder leaf = []
  inorder (node c l a r) = inorder l ++ (a ∷ inorder r)

  -- What stands before and behind a place with these frames.
  before : List (Frame A) → List A
  before [] = []
  before (left_of c a t ∷ fs) = before fs
  before (right_of c a t ∷ fs) = before fs ++ (inorder t ++ (a ∷ []))

  behind : List (Frame A) → List A
  behind [] = []
  behind (left_of c a t ∷ fs) = a ∷ (inorder t ++ behind fs)
  behind (right_of c a t ∷ fs) = behind fs

  ruleset lists = (append_assoc, append-nil)

  inorder-zip :
      (t : Tree A) (fs : List (Frame A))
      → inorder (zip t fs) ≡ before fs ++ (inorder t ++ behind fs)
  unfolding inorder zip before behind
  inorder-zip t [] = simp lists
  inorder-zip t (left_of c a r ∷ fs) = simp (inorder-zip (node c t a r) fs, append_assoc)
  inorder-zip t (right_of c a l ∷ fs) = simp (inorder-zip (node c l a t) fs, append_assoc)

  pub inorder-paint : (c : Color) (t : Tree A) → inorder (paint c t) ≡ inorder t
  unfolding inorder
  inorder-paint c leaf = refl
  inorder-paint c (node d l a r) = refl

  inorder-rotate_left : (t : Tree A) → inorder (rb_rotate_left t) ≡ inorder t
  unfolding inorder rb_rotate_left
  inorder-rotate_left leaf = refl
  inorder-rotate_left (node c l a leaf) = refl
  inorder-rotate_left (node c l a (node d m b r)) = simp append_assoc

  inorder-rotate_right : (t : Tree A) → inorder (rb_rotate_right t) ≡ inorder t
  unfolding inorder rb_rotate_right
  inorder-rotate_right leaf = refl
  inorder-rotate_right (node c leaf a r) = refl
  inorder-rotate_right (node c (node d l b m) a r) = simp append_assoc

  inorder-left_parent :
      (p : Frame A) (z : Tree A) → inorder (left_parent p z) ≡ inorder (close_frame p z)
  unfolding left_parent inorder
  inorder-left_parent (left_of c a r) z = refl
  inorder-left_parent (right_of c a l) z =
      inorder-paint black (rb_rotate_left (node c l a z)) ∙ inorder-rotate_left (node c l a z)

  inorder-right_parent :
      (p : Frame A) (z : Tree A) → inorder (right_parent p z) ≡ inorder (close_frame p z)
  unfolding right_parent inorder
  inorder-right_parent (right_of c a l) z = refl
  inorder-right_parent (left_of c a r) z =
      inorder-paint black (rb_rotate_right (node c z a r)) ∙ inorder-rotate_right (node c z a r)

  -- A frame's node with a tree that holds the same, in the same order.
  inorder-zip_eq :
      (s t : Tree A) (fs : List (Frame A))
      → inorder s ≡ inorder t
      → inorder (zip s fs) ≡ inorder (zip t fs)
  inorder-zip_eq s t fs e =
      inorder-zip s fs ∙ ap (λ xs. before fs ++ (xs ++ behind fs)) e ∙ sym (inorder-zip t fs)

  inorder-fixup_loop :
      (z : Tree A) (fs : List (Frame A)) → inorder (fixup_loop z fs) ≡ inorder (zip z fs)
  unfolding fixup_loop zip inorder
  inorder-fixup_loop z [] = refl
  inorder-fixup_loop z (p ∷ []) = refl
  inorder-fixup_loop z (p ∷ left_of c a y ∷ fs) = elim (Bool-cases (frame_is_red p)) [
    | inr calm ↦ rw calm refl
    | inl clash ↦ elim (Bool-cases (is_red y)) [
      | inl uncle ↦
          rw (clash, uncle)
            (inorder-fixup_loop (node red (paint black (close_frame p z)) a (paint black y)) fs
              ∙ inorder-zip_eq _ _ fs (
                  unfold inorder in
                  ap₂ (λ s t. s ++ (a ∷ t)) (inorder-paint black (close_frame p z))
                    (inorder-paint black y)))
      | inr turn ↦
          rw (clash, turn)
            (inorder-zip_eq _ _ fs (
              inorder-rotate_right (node red (left_parent p z) a y)
              ∙ (ap (λ s. s ++ (a ∷ inorder y)) (inorder-left_parent p z))))
    ]
  ]
  inorder-fixup_loop z (p ∷ right_of c a y ∷ fs) = elim (Bool-cases (frame_is_red p)) [
    | inr calm ↦ rw calm refl
    | inl clash ↦ elim (Bool-cases (is_red y)) [
      | inl uncle ↦
          rw (clash, uncle)
            (inorder-fixup_loop (node red (paint black y) a (paint black (close_frame p z))) fs
              ∙ inorder-zip_eq _ _ fs (
                  unfold inorder in
                  ap₂ (λ s t. s ++ (a ∷ t)) (inorder-paint black y)
                    (inorder-paint black (close_frame p z))))
      | inr turn ↦
          rw (clash, turn)
            (inorder-zip_eq _ _ fs (
              inorder-rotate_left (node red y a (right_parent p z))
              ∙ (ap (λ s. inorder y ++ (a ∷ s)) (inorder-right_parent p z))))
    ]
  ]

module _ {A : Type 0} (key : A → ℕ) where
  -- Behind the entries whose key is not greater, up to the first that is greater.
  unfoldable pub insert_by : A → List A → List A
  insert_by z [] = z ∷ []
  insert_by z (x ∷ xs) = if ltb (key z) (key x) then z ∷ (x ∷ xs) else x ∷ insert_by z xs

  -- The keys do not fall.
  abbrev pub IsSorted : List A → Type 0
  IsSorted [] = Unit {0}
  IsSorted (x ∷ []) = Unit {0}
  IsSorted (x ∷ y ∷ xs) = (key x ≤ key y) × IsSorted (y ∷ xs)

  pub IsSorted-tail : (x : A) (xs : List A) → IsSorted (x ∷ xs) → IsSorted xs
  IsSorted-tail x [] s = tt
  IsSorted-tail x (y ∷ xs) s = s.1

  IsSorted-append_right : (xs ys : List A) → IsSorted (xs ++ ys) → IsSorted ys
  IsSorted-append_right [] ys s = s
  IsSorted-append_right (x ∷ xs) ys s = IsSorted-append_right xs ys (IsSorted-tail x (xs ++ ys) s)

  IsSorted-append_left : (xs ys : List A) → IsSorted (xs ++ ys) → IsSorted xs
  IsSorted-append_left [] ys s = tt
  IsSorted-append_left (x ∷ []) ys s = tt
  IsSorted-append_left (x ∷ y ∷ xs) ys s = (s.0, IsSorted-append_left (y ∷ xs) ys s.1)

  insert_by-append_left :
      (z : A) (xs : List A) (a : A) (ys : List A)
      → ltb (key z) (key a) ≡ true
      → insert_by z (xs ++ (a ∷ ys)) ≡ insert_by z xs ++ (a ∷ ys)
  unfolding insert_by
  insert_by-append_left z [] a ys h = rw h refl
  insert_by-append_left z (x ∷ xs) a ys h = ground (arith, insert_by-append_left z xs a ys)

  first-le-last :
      (x : A) (xs : List A) (a : A) (ys : List A) → IsSorted (x ∷ (xs ++ (a ∷ ys))) → key x ≤ key a
  first-le-last x [] a ys s = s.0
  first-le-last x (y ∷ xs) a ys s = omega (arith, s.0, first-le-last y xs a ys s.1)

  insert_by-append_right :
      (z : A) (xs : List A) (a : A) (ys : List A)
      → IsSorted (xs ++ (a ∷ ys))
      → ltb (key z) (key a) ≡ false
      → insert_by z (xs ++ (a ∷ ys)) ≡ xs ++ (a ∷ insert_by z ys)
  unfolding insert_by
  insert_by-append_right z [] a ys s h = rw h refl
  insert_by-append_right z (x ∷ xs) a ys s h = ground (
    arith,
    first-le-last x xs a ys s,
    insert_by-append_right z xs a ys (IsSorted-tail x (xs ++ (a ∷ ys)) s) h,
  )

  inorder-descend :
      (z : A) (t : Tree A) (fs : List (Frame A))
      → IsSorted (inorder t)
      → before (descend key (key z) t fs) ++ (z ∷ behind (descend key (key z) t fs))
        ≡ before fs ++ (insert_by z (inorder t) ++ behind fs)
  unfolding descend inorder insert_by before behind
  inorder-descend z leaf fs s = refl
  inorder-descend z (node c l a r) fs s = elim (Bool-cases (ltb (key z) (key a))) [
    | inl less ↦ rw less (
        inorder-descend z l (left_of c a r ∷ fs)
          (IsSorted-append_left (inorder l) (a ∷ inorder r) s)
        ∙ ap (λ t. before fs ++ t)
            (sym (append_assoc (insert_by z (inorder l)) (a ∷ inorder r) (behind fs))
              ∙ ap (λ t. t ++ behind fs)
                  (sym (insert_by-append_left z (inorder l) a (inorder r) less))))
    | inr not_less ↦ rw not_less (
        inorder-descend z r (right_of c a l ∷ fs)
          (IsSorted-tail a (inorder r) (IsSorted-append_right (inorder l) (a ∷ inorder r) s))
        ∙ regroup (before fs) (inorder l) (insert_by z (inorder r)) (behind fs)
        ∙ ap (λ t. before fs ++ (t ++ behind fs))
            (sym (insert_by-append_right z (inorder l) a (inorder r) s not_less)))
  ]
    where
      regroup : (p q m b : List A) → (p ++ (q ++ (a ∷ []))) ++ (m ++ b) ≡ p ++ ((q ++ (a ∷ m)) ++ b)
      regroup p q m b = simp append_assoc

  -- In a tree whose keys do not fall from left to right, `rb_insert` puts the new node behind all
  -- nodes with a smaller key or the same, before those with a greater key, and leaves the others in
  -- their order.
  pub rb_insert_lem :
      (z : A) (t : Tree A)
      → IsSorted (inorder t)
      → inorder (rb_insert key z t) ≡ insert_by z (inorder t)
  unfolding rb_insert rb_insert_fixup inorder before behind
  rb_insert_lem z t s =
      inorder-paint black (fixup_loop (node red leaf z leaf) (descend key (key z) t []))
      ∙ inorder-fixup_loop (node red leaf z leaf) (descend key (key z) t [])
      ∙ inorder-zip (node red leaf z leaf) (descend key (key z) t [])
      ∙ inorder-descend z t [] s
      ∙ append-nil (insert_by z (inorder t))
