-- ===== src/Sched/Tree/Tests.antt =====
-- Runs of the trees, and their theorems at a concrete tree.
use open_asd.Prelude.{ℕ, ◌≡◌, refl}
use open_asd.Sched.Tree.{
  red, black, Tree, leaf, node, rb_insert, rb_insert_fixup, fixup_loop, descend,
}
use open_asd.Sched.Tree.Balance.{IsRedBlack, rb_insert-IsRedBlack}

abbrev key : ℕ → ℕ
key p = p

abbrev three : Tree ℕ
three = node black (node red leaf 2 leaf) 5 (node red leaf 8 leaf)

rb_insert-IsRedBlack_example : IsRedBlack (rb_insert key 3 three)
rb_insert-IsRedBlack_example =
    rb_insert-IsRedBlack key 3 three
      ((refl, (refl, refl, refl, tt, tt), (refl, refl, refl, tt, tt)), refl)

-- The new node's parent and uncle are red.
shape :
    rb_insert key 3 three
    ≡ node black (node black leaf 2 (node red leaf 3 leaf)) 5 (node black leaf 8 leaf)
unfolding rb_insert rb_insert_fixup fixup_loop descend
shape = refl
