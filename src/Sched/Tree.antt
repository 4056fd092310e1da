-- ===== src/Sched/Tree.antt =====
-- The red-black trees of kernel/sched/sched.c. A node is its color, its children and what it is
-- embedded in; the parent pointers from a node up to the root are the list of the frames that
-- surround it, the nearest first. `key` is the priority that a comparison reads.
pub mod Order
pub mod Balance
pub mod Remove
mod Tests
use open_asd.Prelude.{
  ℕ, Bool, true, false, not, Option, none, some, List, [], ◌∷◌, ltb, if◌then◌else◌,
}

-- `color`: 1 is red, 0 is black.
pub data Color : Type 0 where
  red black : Color

pub data Tree (A : Type 0) : Type 0 where
  leaf : Tree A
  node : Color → Tree A → A → Tree A → Tree A

-- A node above: the color, what the node is embedded in, and the other child.
pub data Frame (A : Type 0) : Type 0 where
  left_of : Color → A → Tree A → Frame A
  right_of : Color → A → Tree A → Frame A

module _ {A : Type 0} where
  unfoldable pub rb_rotate_left : Tree A → Tree A
  rb_rotate_left (node c xl x (node d yl y yr)) = node d (node c xl x yl) y yr
  rb_rotate_left t = t

  unfoldable pub rb_rotate_right : Tree A → Tree A
  rb_rotate_right (node c (node d yl y yr) x xr) = node d yl y (node c yr x xr)
  rb_rotate_right t = t

  abbrev pub paint : Color → Tree A → Tree A
  paint c leaf = leaf
  paint c (node d l a r) = node c l a r

  abbrev pub is_red : Tree A → Bool
  is_red leaf = false
  is_red (node red l a r) = true
  is_red (node black l a r) = false

  -- The tree below a frame, with the frame's node.
  abbrev pub close_frame : Frame A → Tree A → Tree A
  close_frame (left_of c a r) t = node c t a r
  close_frame (right_of c a l) t = node c l a t

  abbrev pub frame_is_red : Frame A → Bool
  frame_is_red (left_of red a t) = true
  frame_is_red (left_of black a t) = false
  frame_is_red (right_of red a t) = true
  frame_is_red (right_of black a t) = false

  -- The whole tree around a node.
  unfoldable pub zip : Tree A → List (Frame A) → Tree A
  zip t [] = t
  zip t (f ∷ fs) = zip (close_frame f t) fs

  -- "z == z->parent->right": the parent comes down by a rotation first, then it is painted black.
  unfoldable pub left_parent : Frame A → Tree A → Tree A
  left_parent (left_of c a r) z = node black z a r
  left_parent (right_of c a l) z = paint black (rb_rotate_left (node c l a z))

  unfoldable pub right_parent : Frame A → Tree A → Tree A
  right_parent (right_of c a l) z = node black l a z
  right_parent (left_of c a r) z = paint black (rb_rotate_right (node c z a r))

  -- The loop of `rb_insert_fixup` at a node `z` with its frames: the whole tree, before the root is
  -- painted. After a rotation the parent is black, which ends the loop.
  unfoldable pub fixup_loop : Tree A → List (Frame A) → Tree A
  unfolding left_parent right_parent zip
  fixup_loop z [] = z
  fixup_loop z (p ∷ []) = close_frame p z
  fixup_loop z (p ∷ left_of c a y ∷ fs) =
      let up = fixup_loop (node red (paint black (close_frame p z)) a (paint black y)) fs in
      let turned = zip (rb_rotate_right (node red (left_parent p z) a y)) fs in
      let same = zip z (p ∷ left_of c a y ∷ fs) in
      if not (frame_is_red p) then same else if is_red y then up else turned
  fixup_loop z (p ∷ right_of c a y ∷ fs) =
      let up = fixup_loop (node red (paint black y) a (paint black (close_frame p z))) fs in
      let turned = zip (rb_rotate_left (node red y a (right_parent p z))) fs in
      let same = zip z (p ∷ right_of c a y ∷ fs) in
      if not (frame_is_red p) then same else if is_red y then up else turned

  unfoldable pub rb_insert_fixup : Tree A → List (Frame A) → Tree A
  unfolding fixup_loop
  rb_insert_fixup z fs = paint black (fixup_loop z fs)

  unfoldable pub rb_leftmost : Tree A → Option A
  rb_leftmost leaf = none
  rb_leftmost (node c leaf a r) = some a
  rb_leftmost (node c (node d l b s) a r) = rb_leftmost (node d l b s)

  -- The leftmost node of a tree with a node at its top, with its place taken by its right child.
  unfoldable pub pop_leftmost : Tree A → A → Tree A → Color → A × Tree A
  pop_leftmost leaf a r c = (a, r)
  pop_leftmost (node d l b s) a r c =
      let (least, rest) = pop_leftmost l b s d in (least, node c rest a r)

  -- The three cases of `rb_remove_node` at the node that is removed: the successor takes over its
  -- place and its color.
  unfoldable pub remove_top : Color → Tree A → Tree A → Tree A
  unfolding pop_leftmost
  remove_top c leaf r = r
  remove_top c (node d l b s) leaf = node d l b s
  remove_top c (node d l b s) (node e l' a r') =
      let (next, rest) = pop_leftmost l' a r' e in node c (node d l b s) next rest

-- The descent of `rb_insert`: the frames around the place of a new node.
module _ {A : Type 0} (key : A → ℕ) where
  unfoldable pub descend : ℕ → Tree A → List (Frame A) → List (Frame A)
  descend k leaf fs = fs
  descend k (node c l a r) fs =
      let left = descend k l (left_of c a r ∷ fs) in
      let right = descend k r (right_of c a l ∷ fs) in if ltb k (key a) then left else right

  unfoldable pub rb_insert : A → Tree A → Tree A
  unfolding descend rb_insert_fixup
  rb_insert z t = rb_insert_fixup (node red leaf z leaf) (descend (key z) t [])

-- The node to remove is known by its address: here by a test that it alone passes.
module _ {A : Type 0} (is : A → Bool) where
  unfoldable pub remove_where : Tree A → Tree A
  unfolding remove_top
  remove_where leaf = leaf
  remove_where (node c l a r) =
      let inside = node c (remove_where l) a (remove_where r) in
      if is a then remove_top c l r else inside

  unfoldable pub rb_remove_node : Tree A → Tree A
  unfolding remove_where
  rb_remove_node t = paint black (remove_where t)
