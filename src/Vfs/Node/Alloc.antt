-- ===== src/Vfs/Node/Alloc.antt =====
-- What `alloc_node_id` of kernel/vfs/vfs.c returns.
use open_asd.Prelude.{
  ℕ, zero, suc, ◌+◌, ◌-◌, ◌%◌, ◌≤◌, ◌<◌, ◌≡◌, refl, sym, ap, ◌∙◌, ◌≢◌, inl, inr, false, List, arith,
  ◌==◌, ==_iff, Bool-cases,
}
use open_asd.Vfs.Node.{Node, Vfs, max_vfsnodes, id_at, alloc_from, alloc_node_id}

module _ {W C : Type 0} (id : ℕ) (nodes : List (Node W C)) where
  alloc_from-some :
      (n i : ℕ)
      → (alloc_from n i id nodes).0 ≢ 0
      → ((alloc_from n i id nodes).0 < max_vfsnodes)
        × (id_at nodes (alloc_from n i id nodes).0 ≡ 0)
        × (0 < (alloc_from n i id nodes).1)
        × ((alloc_from n i id nodes).1 < max_vfsnodes)
  unfolding alloc_from
  alloc_from-some zero i h = absurd (h refl)
  alloc_from-some (suc n) i h = elim (Bool-cases ((id + i) % max_vfsnodes == 0)) [
    | inl reserved ↦ rw reserved (alloc_from-some n (i + 1) (rw reserved at h))
    | inr usable ↦ elim (Bool-cases (id_at nodes ((id + i) % max_vfsnodes) == 0)) [
      | inl free ↦ rw (usable, free) (omega arith, (==_iff _ _).0 free, ground arith, ground arith)
      | inr taken ↦ rw (usable, taken) (alloc_from-some n (i + 1) (rw (usable, taken) at h))
    ]
  ]

  alloc_from-none :
      (n i : ℕ)
      → (alloc_from n i id nodes).0 ≡ 0
      → (j : ℕ) → i ≤ j
      → j < i + n
      → (id + j) % max_vfsnodes ≢ 0
      → id_at nodes ((id + j) % max_vfsnodes) ≢ 0
  unfolding alloc_from
  alloc_from-none zero i h j a b c = absurd (omega arith)
  alloc_from-none (suc n) i h j a b c = elim (Bool-cases ((id + i) % max_vfsnodes == 0)) [
    | inl reserved ↦
        alloc_from-none n (i + 1) (rw reserved at h) j
          (beyond (λ e. c (modulus e ∙ (==_iff _ _).0 reserved))) (omega arith) c
    | inr usable ↦ elim (Bool-cases (id_at nodes ((id + i) % max_vfsnodes) == 0)) [
      | inl free ↦ absurd ((==_ne usable) (rw (usable, free) at h))
      | inr taken ↦ elim (Bool-cases (i == j)) [
        | inl now ↦
            λ e. ==_ne taken (ap (id_at nodes) (sym (modulus (sym ((==_iff _ _).0 now)))) ∙ e)
        | inr later ↦
            alloc_from-none n (i + 1) (rw (usable, taken) at h) j
              (beyond (λ e. ==_ne later (sym e))) (omega arith) c
      ]
    ]
  ]
    where
      modulus : j ≡ i → (id + j) % max_vfsnodes ≡ (id + i) % max_vfsnodes
      modulus e = ap (λ k. (id + k) % max_vfsnodes) e

      beyond : j ≢ i → i + 1 ≤ j
      beyond ne = ground arith

      ==_ne : {x y : ℕ} → (x == y) ≡ false → x ≢ y
      ==_ne e f = ground arith

module _ {W C : Type 0} (s : Vfs W C) where
  -- A slot that `alloc_node_id` returns is a free one with an index from 1 to 1023, and the next id to
  -- try is in that range too; it returns 0 only if all those slots are taken.
  pub alloc_node_id_lem :
      ((alloc_node_id s).0 ≢ 0
        → ((alloc_node_id s).0 < max_vfsnodes)
          × (id_at s.nodes (alloc_node_id s).0 ≡ 0)
          × (0 < (alloc_node_id s).1.next_node_id)
          × ((alloc_node_id s).1.next_node_id < max_vfsnodes))
      × ((alloc_node_id s).0 ≡ 0
          → (slot : ℕ) → 0 < slot
          → slot < max_vfsnodes
          → id_at s.nodes slot ≢ 0)
  unfolding alloc_node_id
  alloc_node_id_lem = (
    alloc_from-some s.next_node_id s.nodes max_vfsnodes 0,
    λ h slot low high e.
        alloc_from-none s.next_node_id s.nodes max_vfsnodes 0 h
          ((slot + 1024 - s.next_node_id % 1024) % 1024) (omega arith) (omega arith)
          (λ z. omega arith) (ap (id_at s.nodes) (omega arith) ∙ e),
  )
