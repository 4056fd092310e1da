-- ===== src/Mm/Phys/Range.antt =====
-- What `phys_free_range` of kernel/mm/mm.c gives to the free lists.
use open_asd.Prelude.{
  ℕ, zero, suc, ◌+◌, ◌-◌, ◌*◌, ◌%◌, ◌^◌, ◌≤◌, ◌<◌, ◌≡◌, ◌∙◌, inl, inr, true, false, arith, ltb,
  ltb→lt, Bool-cases,
}
use open_asd.Prelude.Bits.{pow_pos}
use open_asd.Mm.Phys.{
  Phys, page_size, max_order, phys_free_block, pick_order, free_from, phys_free_range,
}

pick_order-fits : (o base i pages : ℕ) → i < pages → i + 2 ^ pick_order o base i pages ≤ pages
unfolding pick_order
pick_order-fits zero base i pages h = omega arith
pick_order-fits (suc o) base i pages h = ground (arith, pick_order-fits o base i pages h)

free_from-free_pages :
    (k base i pages : ℕ) (s : Phys)
    → s.free_pages < 2 ^ 64
    → i ≤ pages
    → pages ≤ i + k
    → (free_from k base i pages s).free_pages ≡ (s.free_pages + (pages - i)) % 2 ^ 64
unfolding free_from phys_free_block
free_from-free_pages zero base i pages s b low enough = omega arith
free_from-free_pages (suc k) base i pages s b low enough = elim (Bool-cases (ltb i pages)) [
  | inr done ↦ rw done (all_done done)
  | inl more ↦ rw more (
      free_from-free_pages k base (i + size) pages (phys_free_block addr order s) (omega arith)
        (pick_order-fits max_order base i pages (ltb→lt i pages more)) (omega (arith, positive))
      ∙ total more (pick_order-fits max_order base i pages (ltb→lt i pages more)))
]
  where
    order : ℕ
    order = pick_order max_order base i pages

    size : ℕ
    size = 2 ^ order

    addr : ℕ
    addr = (base + i * page_size) % 2 ^ 64

    positive : 0 < size
    positive = pow_pos order

    all_done : ltb i pages ≡ false → s.free_pages ≡ (s.free_pages + (pages - i)) % 2 ^ 64
    all_done done = ground arith

    total :
        ltb i pages ≡ true
        → i + size ≤ pages
        → ((s.free_pages + size) % 2 ^ 64 + (pages - (i + size))) % 2 ^ 64
          ≡ (s.free_pages + (pages - i)) % 2 ^ 64
    total more fits = omega arith

-- `phys_free_range` counts every page of the range as free: the counter grows by the number of
-- pages (on 64 bits).
pub phys_free_range-free_pages :
    (base pages : ℕ) (s : Phys)
    → s.free_pages < 2 ^ 64
    → (phys_free_range base pages s).free_pages ≡ (s.free_pages + pages) % 2 ^ 64
unfolding phys_free_range
phys_free_range-free_pages base pages s b =
    omega (arith, free_from-free_pages pages base 0 pages s b (omega arith) (omega arith))
