-- ===== src/Sched/Tree/Balance.antt =====
-- `rb_insert` keeps a tree red-black.
use open_asd.Prelude.{
  ℕ, suc, ◌≡◌, refl, sym, ap, ◌∙◌, inl, inr, true, false, List, [], ◌∷◌, arith, ltb, Bool-cases,
}
use mathlib.Core.Path.{subst}
use open_asd.Sched.Tree.{
  red, black, Tree, leaf, node, Frame, left_of, right_of, rb_rotate_left, rb_rotate_right, paint,
  is_red, close_frame, frame_is_red, zip, left_parent, right_parent, fixup_loop, rb_insert_fixup,
  descend, rb_insert,
}

true_ne : true ≡ false → ⊥
true_ne e = cc

module _ {A : Type 0} where
  -- The black nodes on the way down the left side.
  abbrev pub black_height : Tree A → ℕ
  black_height leaf = 0
  black_height (node red l a r) = black_height l
  black_height (node black l a r) = suc (black_height l)

  -- Every way down has as many black nodes, and a red node has no red child.
  abbrev pub IsColored : Tree A → Type 0
  IsColored leaf = Unit {0}
  IsColored (node red l a r) =
      (is_red l ≡ false)
      × (is_red r ≡ false)
      × (black_height l ≡ black_height r)
      × IsColored l
      × IsColored r
  IsColored (node black l a r) = (black_height l ≡ black_height r) × IsColored l × IsColored r

  -- A red-black tree: the root is black, too.
  abbrev pub IsRedBlack : Tree A → Type 0
  IsRedBlack t = IsColored t × (is_red t ≡ false)

  -- A red frame is below a black one: it is not the root.
  abbrev BelowBlack : List (Frame A) → Type 0
  BelowBlack [] = ⊥
  BelowBlack (f ∷ fs) = frame_is_red f ≡ false

  -- The frames are those of a red-black tree, around a place for a tree of black height `n`.
  abbrev Around : ℕ → List (Frame A) → Type 0
  Around n [] = Unit {0}
  Around n (left_of red a y ∷ fs) =
      (black_height y ≡ n) × IsColored y × (is_red y ≡ false) × BelowBlack fs × Around n fs
  Around n (left_of black a y ∷ fs) = (black_height y ≡ n) × IsColored y × Around (suc n) fs
  Around n (right_of red a y ∷ fs) =
      (black_height y ≡ n) × IsColored y × (is_red y ≡ false) × BelowBlack fs × Around n fs
  Around n (right_of black a y ∷ fs) = (black_height y ≡ n) × IsColored y × Around (suc n) fs

  -- A red frame holds a tree whose root is not red.
  abbrev Calm : Tree A → List (Frame A) → Type 0
  Calm t [] = Unit {0}
  Calm t (f ∷ fs) = frame_is_red f ≡ true → is_red t ≡ false

  Calm-red : (t : Tree A) (fs : List (Frame A)) → BelowBlack fs → Calm t fs
  Calm-red t [] b = tt
  Calm-red t (f ∷ fs) b = λ e. cc

  Calm-black : (l : Tree A) (a : A) (r : Tree A) (fs : List (Frame A)) → Calm (node black l a r) fs
  Calm-black l a r [] = tt
  Calm-black l a r (f ∷ fs) = λ e. refl

  Calm-not_red : (t : Tree A) (fs : List (Frame A)) → is_red t ≡ false → Calm t fs
  Calm-not_red t [] b = tt
  Calm-not_red t (f ∷ fs) b = λ e. b

  IsColored-zip :
      (t : Tree A) (fs : List (Frame A)) (n : ℕ)
      → IsColored t
      → black_height t ≡ n
      → Around n fs
      → Calm t fs
      → IsColored (zip t fs)
  unfolding zip
  IsColored-zip t [] n good h c calm = good
  IsColored-zip t (left_of red a y ∷ fs) n good h c calm =
      IsColored-zip (node red t a y) fs n (calm refl, c.2, h ∙ sym c.0, good, c.1) h c.4
        (Calm-red (node red t a y) fs c.3)
  IsColored-zip t (left_of black a y ∷ fs) n good h c calm =
      IsColored-zip (node black t a y) fs (suc n) (h ∙ sym c.0, good, c.1) (ap suc h) c.2
        (Calm-black t a y fs)
  IsColored-zip t (right_of red a y ∷ fs) n good h c calm =
      IsColored-zip (node red y a t) fs n (c.2, calm refl, c.0 ∙ sym h, c.1, good) c.0 c.4
        (Calm-red (node red y a t) fs c.3)
  IsColored-zip t (right_of black a y ∷ fs) n good h c calm =
      IsColored-zip (node black y a t) fs (suc n) (c.0 ∙ sym h, c.1, good) (ap suc c.0) c.2
        (Calm-black y a t fs)

  IsColored-paint : (t : Tree A) → IsColored t → IsColored (paint black t)
  IsColored-paint leaf good = tt
  IsColored-paint (node red l a r) good = (good.2, good.3, good.4)
  IsColored-paint (node black l a r) good = good

  -- The turn at a black grandparent whose other child is not red.
  Turned : ℕ → Tree A → Type 0
  Turned n t = IsColored t × (black_height t ≡ suc n) × (is_red t ≡ false)

  left_turn :
      (p : Frame A) (zl : Tree A) (za : A) (zr : Tree A) (a : A) (y : Tree A) (fs : List (Frame A))
      (n : ℕ)
      → IsColored (node red zl za zr)
      → black_height zl ≡ n
      → Around n (p ∷ left_of black a y ∷ fs)
      → is_red y ≡ false
      → frame_is_red p ≡ true
      → Turned n (rb_rotate_right (node red (left_parent p (node red zl za zr)) a y))
  unfolding Turned rb_rotate_right rb_rotate_left left_parent
  left_turn (left_of red b s) zl za zr a y fs n good h c calm clash = ground arith
  left_turn (right_of red b s) zl za zr a y fs n good h c calm clash = ground arith
  left_turn (left_of black b s) zl za zr a y fs n good h c calm clash = cc
  left_turn (right_of black b s) zl za zr a y fs n good h c calm clash = cc

  right_turn :
      (p : Frame A) (zl : Tree A) (za : A) (zr : Tree A) (a : A) (y : Tree A) (fs : List (Frame A))
      (n : ℕ)
      → IsColored (node red zl za zr)
      → black_height zl ≡ n
      → Around n (p ∷ right_of black a y ∷ fs)
      → is_red y ≡ false
      → frame_is_red p ≡ true
      → Turned n (rb_rotate_left (node red y a (right_parent p (node red zl za zr))))
  unfolding Turned rb_rotate_right rb_rotate_left right_parent
  right_turn (left_of red b s) zl za zr a y fs n good h c calm clash = ground arith
  right_turn (right_of red b s) zl za zr a y fs n good h c calm clash = ground arith
  right_turn (left_of black b s) zl za zr a y fs n good h c calm clash = cc
  right_turn (right_of black b s) zl za zr a y fs n good h c calm clash = cc

  Painted : ℕ → Tree A → Type 0
  Painted n t = IsColored t × (black_height t ≡ suc n) × (is_red t ≡ false)

  Painted-parent :
      (p : Frame A) (t : Tree A) (fs : List (Frame A)) (n : ℕ)
      → IsColored t
      → black_height t ≡ n
      → Around n (p ∷ fs)
      → frame_is_red p ≡ true
      → Painted n (paint black (close_frame p t)) × BelowBlack fs
  unfolding Painted
  Painted-parent (left_of red b s) t fs n good h c clash = ground arith
  Painted-parent (right_of red b s) t fs n good h c clash = ground arith
  Painted-parent (left_of black b s) t fs n good h c clash = cc
  Painted-parent (right_of black b s) t fs n good h c clash = cc

  Painted-uncle :
      (y : Tree A) (n : ℕ)
      → IsColored y
      → black_height y ≡ n
      → is_red y ≡ true
      → Painted n (paint black y)
  unfolding Painted
  Painted-uncle leaf n good h r = cc
  Painted-uncle (node red l a s) n good h r = ground arith
  Painted-uncle (node black l a s) n good h r = cc

  Around-parent :
      (p : Frame A) (fs : List (Frame A)) (n : ℕ)
      → Around n (p ∷ fs)
      → frame_is_red p ≡ true
      → Around n fs
  Around-parent (left_of red b s) fs n c clash = c.4
  Around-parent (right_of red b s) fs n c clash = c.4
  Around-parent (left_of black b s) fs n c clash = cc
  Around-parent (right_of black b s) fs n c clash = cc

  unclashed :
      (t : Tree A) (p : Frame A) (fs : List (Frame A)) (n : ℕ)
      → IsColored t
      → black_height t ≡ n
      → Around n (p ∷ fs)
      → frame_is_red p ≡ false
      → IsColored (paint black (zip t (p ∷ fs)))
  unclashed t p fs n good h c calm =
      IsColored-paint (zip t (p ∷ fs)) (IsColored-zip t (p ∷ fs) n good h c (λ e. cc))

  turned :
      (t : Tree A) (fs : List (Frame A)) (n : ℕ)
      → Turned n t
      → Around (suc n) fs
      → IsColored (paint black (zip t fs))
  unfolding Turned
  turned t fs n u c =
      IsColored-paint (zip t fs) (IsColored-zip t fs (suc n) u.0 u.1 c (Calm-not_red t fs u.2))

  fixup-IsColored :
      (zl : Tree A) (za : A) (zr : Tree A) (fs : List (Frame A)) (n : ℕ)
      → IsColored (node red zl za zr)
      → black_height zl ≡ n
      → Around n fs
      → IsColored (paint black (fixup_loop (node red zl za zr) fs))
  unfolding fixup_loop zip Painted
  fixup-IsColored zl za zr [] n good h c = IsColored-paint (node red zl za zr) good
  fixup-IsColored zl za zr (left_of red b s ∷ []) n good h c = absurd c.3
  fixup-IsColored zl za zr (right_of red b s ∷ []) n good h c = absurd c.3
  fixup-IsColored zl za zr (left_of black b s ∷ []) n good h c = ground arith
  fixup-IsColored zl za zr (right_of black b s ∷ []) n good h c = ground arith
  fixup-IsColored zl za zr (p ∷ left_of red a y ∷ fs) n good h c =
      elim (Bool-cases (frame_is_red p)) [
        | inr calm ↦
            rw calm (unclashed (node red zl za zr) p (left_of red a y ∷ fs) n good h c calm)
        | inl clash ↦ absurd (
            true_ne
              (Painted-parent p (node red zl za zr) (left_of red a y ∷ fs) n good h c clash).1)
      ]
  fixup-IsColored zl za zr (p ∷ right_of red a y ∷ fs) n good h c =
      elim (Bool-cases (frame_is_red p)) [
        | inr calm ↦
            rw calm (unclashed (node red zl za zr) p (right_of red a y ∷ fs) n good h c calm)
        | inl clash ↦ absurd (
            true_ne
              (Painted-parent p (node red zl za zr) (right_of red a y ∷ fs) n good h c clash).1)
      ]
  fixup-IsColored zl za zr (p ∷ left_of black a y ∷ fs) n good h c =
      elim (Bool-cases (frame_is_red p)) [
        | inr calm ↦
            rw calm (unclashed (node red zl za zr) p (left_of black a y ∷ fs) n good h c calm)
        | inl clash ↦
            let above = Around-parent p (left_of black a y ∷ fs) n c clash in
            elim (Bool-cases (is_red y)) [
              | inl uncle ↦
                  let (pg, ph, pb) =
                    (Painted-parent p (node red zl za zr) (left_of black a y ∷ fs) n good h c
                      clash).0 in
                  let (yg, yh, yb) = Painted-uncle y n above.1 above.0 uncle in
                  rw (clash, uncle)
                    (fixup-IsColored (paint black (close_frame p (node red zl za zr))) a
                      (paint black y) fs (suc n) (pb, yb, ph ∙ sym yh, pg, yg) ph above.2)
              | inr other ↦
                  rw (clash, other)
                    (turned _ fs n (left_turn p zl za zr a y fs n good h c other clash) above.2)
            ]
      ]
  fixup-IsColored zl za zr (p ∷ right_of black a y ∷ fs) n good h c =
      elim (Bool-cases (frame_is_red p)) [
        | inr calm ↦
            rw calm (unclashed (node red zl za zr) p (right_of black a y ∷ fs) n good h c calm)
        | inl clash ↦
            let above = Around-parent p (right_of black a y ∷ fs) n c clash in
            elim (Bool-cases (is_red y)) [
              | inl uncle ↦
                  let (pg, ph, pb) =
                    (Painted-parent p (node red zl za zr) (right_of black a y ∷ fs) n good h c
                      clash).0 in
                  let (yg, yh, yb) = Painted-uncle y n above.1 above.0 uncle in
                  rw (clash, uncle)
                    (fixup-IsColored (paint black y) a
                      (paint black (close_frame p (node red zl za zr))) fs (suc n)
                      (yb, pb, yh ∙ sym ph, yg, pg) yh above.2)
              | inr other ↦
                  rw (clash, other)
                    (turned _ fs n (right_turn p zl za zr a y fs n good h c other clash) above.2)
            ]
      ]

module _ {A : Type 0} (key : A → ℕ) where
  Around-descend :
      (k : ℕ) (t : Tree A) (fs : List (Frame A))
      → IsColored t
      → Around (black_height t) fs
      → (is_red t ≡ true → BelowBlack fs)
      → Around 0 (descend key k t fs)
  unfolding descend
  Around-descend k leaf fs good c calm = c
  Around-descend k (node red l a r) fs good c below = elim (Bool-cases (ltb k (key a))) [
    | inl less ↦ rw less (
        Around-descend k l (left_of red a r ∷ fs) good.3 (sym good.2, good.4, good.1, below refl, c)
          (λ e. absurd (true_ne (sym e ∙ good.0))))
    | inr not_less ↦ rw not_less (
        Around-descend k r (right_of red a l ∷ fs) good.4
          (good.2, good.3, good.0, below refl, subst (λ n. Around n fs) good.2 c)
          (λ e. absurd (true_ne (sym e ∙ good.1))))
  ]
  Around-descend k (node black l a r) fs good c below = elim (Bool-cases (ltb k (key a))) [
    | inl less ↦
        rw less
          (Around-descend k l (left_of black a r ∷ fs) good.1 (sym good.0, good.2, c) (λ e. refl))
    | inr not_less ↦ rw not_less (
        Around-descend k r (right_of black a l ∷ fs) good.2
          (good.0, good.1, subst (λ n. Around (suc n) fs) good.0 c) (λ e. refl))
  ]

  is_red-paint : (t : Tree A) → is_red (paint black t) ≡ false
  is_red-paint leaf = refl
  is_red-paint (node c l a r) = refl

  -- `rb_insert` keeps a tree red-black: its root is black, no red node has a red child, and every way
  -- down has as many black nodes.
  pub rb_insert-IsRedBlack : (z : A) (t : Tree A) → IsRedBlack t → IsRedBlack (rb_insert key z t)
  unfolding rb_insert rb_insert_fixup
  rb_insert-IsRedBlack z t good = (
    fixup-IsColored leaf z leaf (descend key (key z) t []) 0 (refl, refl, refl, tt, tt) refl
        (Around-descend (key z) t [] good.0 tt (λ e. absurd (true_ne (sym e ∙ good.1)))),
    is_red-paint (fixup_loop (node red leaf z leaf) (descend key (key z) t [])),
  )
