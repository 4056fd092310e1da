-- ===== src/Sched/Tree/Remove.antt =====
-- What `rb_leftmost` and `rb_remove_node` do to the nodes of a tree, from left to right.
use open_asd.Prelude.{
  ◌≤◌, ◌≡◌, refl, sym, ap, ◌∙◌, inl, inr, Bool, true, Option, none, some, List, [], ◌∷◌, ◌++◌,
  arith, Bool-cases, if◌then◌else◌,
}
use mathlib.Core.Path.{ap₂}
use mathlib.Core.List.{append-nil}
use open_asd.Prelude.Find.{count, count-append}
use open_asd.Sched.Tree.{
  Color, black, Tree, leaf, node, rb_leftmost, pop_leftmost, remove_top, remove_where,
  rb_remove_node,
}
use open_asd.Sched.Tree.Order.{inorder, inorder-paint}

abbrev pub head? : {A : Type 0} → List A → Option A
head? [] = none
head? (x ∷ xs) = some x

-- The entries that fail a test.
unfoldable pub filter_out : {A : Type 0} → (A → Bool) → List A → List A
filter_out is [] = []
filter_out is (x ∷ xs) = if is x then filter_out is xs else x ∷ filter_out is xs

module _ {A : Type 0} where
  head-append : (xs ys : List A) (a : A) → head? xs ≡ some a → head? (xs ++ ys) ≡ some a
  head-append [] ys a h = cc
  head-append (x ∷ xs) ys a h = h

  leftmost-node :
      (l : Tree A) (c : Color) (a : A) (r : Tree A)
      → rb_leftmost (node c l a r) ≡ head? (inorder l ++ (a ∷ inorder r))
  unfolding rb_leftmost inorder
  leftmost-node leaf c a r = refl
  leftmost-node (node d l b s) c a r =
      leftmost-node l d b s ∙ sym (skip (inorder l) (b ∷ inorder s) (a ∷ inorder r))
    where
      skip :
          (xs : List A) (ys zs : List A)
          → head? ((xs ++ (b ∷ inorder s)) ++ zs) ≡ head? (xs ++ (b ∷ inorder s))
      skip [] ys zs = refl
      skip (x ∷ xs) ys zs = refl

  -- `rb_leftmost` is the first node.
  pub rb_leftmost_lem : (t : Tree A) → rb_leftmost t ≡ head? (inorder t)
  unfolding inorder rb_leftmost
  rb_leftmost_lem leaf = refl
  rb_leftmost_lem (node c l a r) = leftmost-node l c a r

  inorder-pop_leftmost :
      (l : Tree A) (a : A) (r : Tree A) (c : Color)
      → (pop_leftmost l a r c).0 ∷ inorder (pop_leftmost l a r c).1 ≡ inorder l ++ (a ∷ inorder r)
  unfolding pop_leftmost inorder
  inorder-pop_leftmost leaf a r c = refl
  inorder-pop_leftmost (node d l b s) a r c =
      ap (λ t. t ++ (a ∷ inorder r)) (inorder-pop_leftmost l b s d)

  inorder-remove_top :
      (c : Color) (l r : Tree A) → inorder (remove_top c l r) ≡ inorder l ++ inorder r
  unfolding remove_top inorder
  inorder-remove_top c leaf r = refl
  inorder-remove_top c (node d l b s) leaf = sym (append-nil (inorder (node d l b s)))
  inorder-remove_top c (node d l b s) (node e m a r) =
      ap (λ t. (inorder l ++ (b ∷ inorder s)) ++ t) (inorder-pop_leftmost m a r e)

module _ {A : Type 0} (is : A → Bool) where
  filter_out-append :
      (xs ys : List A) → filter_out is (xs ++ ys) ≡ filter_out is xs ++ filter_out is ys
  unfolding filter_out
  filter_out-append [] ys = refl
  filter_out-append (x ∷ xs) ys = ground (arith, filter_out-append xs ys)

  pub filter_out_none : (xs : List A) → count is xs ≡ 0 → filter_out is xs ≡ xs
  unfolding filter_out count
  filter_out_none [] h = refl
  filter_out_none (x ∷ xs) h = ground (arith, filter_out_none xs)

  inorder-remove_where :
      (t : Tree A)
      → count is (inorder t) ≤ 1
      → inorder (remove_where is t) ≡ filter_out is (inorder t)
  unfolding remove_where inorder filter_out count
  inorder-remove_where leaf h = refl
  inorder-remove_where (node c l a r) h = elim (Bool-cases (is a)) [
    | inl this ↦ rw this (
        inorder-remove_top c l r
        ∙ sym (
            filter_out-append (inorder l) (a ∷ inorder r)
            ∙ rw
                (
                  this,
                  filter_out_none (inorder l) (alone this).0,
                  filter_out_none (inorder r) (alone this).1,
                )
                refl))
    | inr other ↦ rw other (
        ap₂ (λ s t. s ++ (a ∷ t)) (inorder-remove_where l (at_most).0)
          (inorder-remove_where r (at_most).1)
        ∙ sym (filter_out-append (inorder l) (a ∷ inorder r) ∙ rw other refl))
  ]
    where
      alone : is a ≡ true → (count is (inorder l) ≡ 0) × (count is (inorder r) ≡ 0)
      alone this = ground (arith, count-append is (inorder l) (a ∷ inorder r))

      at_most : (count is (inorder l) ≤ 1) × (count is (inorder r) ≤ 1)
      at_most = ground (arith, count-append is (inorder l) (a ∷ inorder r))

  -- Removing a node leaves the others in their order; the root is black then. (At most one node passes
  -- the test.)
  pub rb_remove_node_lem :
      (t : Tree A)
      → count is (inorder t) ≤ 1
      → inorder (rb_remove_node is t) ≡ filter_out is (inorder t)
  unfolding rb_remove_node
  rb_remove_node_lem t h = inorder-paint black (remove_where is t) ∙ inorder-remove_where t h
