-- ===== src/Sched/Queue/Class.antt =====
-- One class of a run queue of kernel/sched/sched.c: a tree with its counter, as a sorted list.
use open_asd.Prelude.{
  ℕ, suc, ◌+◌, ◌%◌, ◌^◌, ◌≤◌, ◌<◌, ◌≡◌, refl, sym, ap, ◌∙◌, inl, inr, Bool, true, List, [], ◌∷◌,
  arith, ◌==◌, ==_iff, Bool-cases, length,
}
use open_asd.Prelude.Find.{count}
use open_asd.Sched.Tree.{Tree, rb_insert, rb_remove_node}
use open_asd.Sched.Tree.Order.{inorder, insert_by, IsSorted, IsSorted-tail, rb_insert_lem}
use open_asd.Sched.Tree.Remove.{
  head?, filter_out, filter_out_none, rb_leftmost_lem, rb_remove_node_lem,
}
use open_asd.Sched.Queue.{same_pcb, take_found, take_first}

abbrev pub tail_of : List ℕ → List ℕ
tail_of [] = []
tail_of (x ∷ xs) = xs

-- The counter is right, the keys do not fall, and no process is there twice.
pub record IsClass (key : ℕ → ℕ) (t : Tree ℕ) (n : ℕ) : Type 0 where
  pub counted : length (inorder t) ≡ n
  pub few : n < 2 ^ 32
  pub sorted : IsSorted key (inorder t)
  pub once : (p : ℕ) → count (same_pcb p) (inorder t) ≤ 1

module _ (key : ℕ → ℕ) where
  count-insert_by :
      (is : ℕ → Bool) (z : ℕ) (xs : List ℕ) → count is (insert_by key z xs) ≡ count is (z ∷ xs)
  unfolding insert_by count
  count-insert_by is z [] = refl
  count-insert_by is z (x ∷ xs) = ground (arith, count-insert_by is z xs)

  length-insert_by : (z : ℕ) (xs : List ℕ) → length (insert_by key z xs) ≡ suc (length xs)
  unfolding insert_by
  length-insert_by z [] = refl
  length-insert_by z (x ∷ xs) = ground (arith, length-insert_by z xs)

  insert_by-IsSorted : (z : ℕ) (xs : List ℕ) → IsSorted key xs → IsSorted key (insert_by key z xs)
  unfolding insert_by
  insert_by-IsSorted z [] s = tt
  insert_by-IsSorted z (x ∷ []) s = ground arith
  insert_by-IsSorted z (x ∷ y ∷ xs) s = ground (arith, insert_by-IsSorted z (y ∷ xs))

  -- A new process goes behind those whose key is not greater.
  pub insert-IsClass :
      (z : ℕ) (t : Tree ℕ) (n : ℕ)
      → IsClass key t n
      → n + 1 < 2 ^ 32
      → count (same_pcb z) (inorder t) ≡ 0
      → (inorder (rb_insert key z t) ≡ insert_by key z (inorder t))
        × IsClass key (rb_insert key z t) ((n + 1) % 2 ^ 32)
  unfolding count
  insert-IsClass z t n c room new = (
    placed,
    record {
      counted = omega (arith, ap length placed, length-insert_by z (inorder t), c.counted);
      few = omega arith;
      sorted = rw placed (insert_by-IsSorted z (inorder t) c.sorted);
      once = λ p. rw (placed, count-insert_by (same_pcb p) z (inorder t)) (still_once p);
    },
  )
    where
      placed : inorder (rb_insert key z t) ≡ insert_by key z (inorder t)
      placed = rb_insert_lem key z t c.sorted

      still_once : (p : ℕ) → count (same_pcb p) (z ∷ inorder t) ≤ 1
      still_once p = elim (Bool-cases (z == p)) [
        | inl same ↦
            rw (same, ap (λ q. count (same_pcb q) (inorder t)) (sym ((==_iff z p).0 same)), new)
              (omega arith)
        | inr other ↦ rw other (omega (arith, c.once p))
      ]

  taken_once :
      (p : ℕ) (xs : List ℕ)
      → ((q : ℕ) → count (same_pcb q) (p ∷ xs) ≤ 1)
      → filter_out (same_pcb p) (p ∷ xs) ≡ xs
  unfolding count filter_out
  taken_once p xs once = rw self (filter_out_none (same_pcb p) xs (gone (once p)))
    where
      self : (p == p) ≡ true
      self = ground arith

      gone : count (same_pcb p) (p ∷ xs) ≤ 1 → count (same_pcb p) xs ≡ 0
      gone h = omega (arith, rw self at h)

  take_found-IsClass :
      (t : Tree ℕ) (n : ℕ) (xs : List ℕ)
      → inorder t ≡ xs
      → IsClass key t n
      → ((take_found (head? xs) t n).0 ≡ head? xs)
        × (inorder (take_found (head? xs) t n).1 ≡ tail_of xs)
        × IsClass key (take_found (head? xs) t n).1 (take_found (head? xs) t n).2
  unfolding take_found count
  take_found-IsClass t n [] e c = (refl, e, c)
  take_found-IsClass t n (p ∷ xs) e c = (
    refl,
    left,
    record {
      counted = omega (arith, ap length left, ap length e, c.counted, c.few);
      few = omega arith;
      sorted = rw left (IsSorted-tail key p xs (rw e at c.sorted));
      once = λ q. rw left (omega (arith, at q));
    },
  )
    where
      at : (q : ℕ) → count (same_pcb q) (p ∷ xs) ≤ 1
      at q = rw e at (c.once q)

      left : inorder (rb_remove_node (same_pcb p) t) ≡ xs
      left =
          rb_remove_node_lem (same_pcb p) t (c.once p)
          ∙ ap (filter_out (same_pcb p)) e
          ∙ taken_once p xs at

  -- The first process leaves the tree, and the others stay in their order.
  pub take_first-IsClass :
      (t : Tree ℕ) (n : ℕ)
      → IsClass key t n
      → ((take_first t n).0 ≡ head? (inorder t))
        × (inorder (take_first t n).1 ≡ tail_of (inorder t))
        × IsClass key (take_first t n).1 (take_first t n).2
  unfolding take_first
  take_first-IsClass t n c = rw (rb_leftmost_lem t) (take_found-IsClass t n (inorder t) refl c)
