-- ===== src/Mm/Phys/Tests.antt =====
-- Five pages from page 1 on.
use open_asd.Prelude.{◌≡◌, refl, [], ◌∷◌, arith, take}
use open_asd.Mm.Phys.{Phys, phys_free_block, pick_order, free_from, phys_free_range}
use open_asd.Mm.Phys.Boot.{blank}
use open_asd.Mm.Phys.Range.{phys_free_range-free_pages}

abbrev empty : Phys
empty = blank (λ pfn. record { flags = 0; order = 0; refcount = 0 })

-- A block of one page, and one of four at page 4, whose address is a multiple of its size.
five_blocks :
    take 3 (phys_free_range 0x3000 5 empty).lists ≡ (0x3000 ∷ []) ∷ [] ∷ (0x4000 ∷ []) ∷ []
unfolding phys_free_range free_from pick_order phys_free_block
five_blocks = refl

phys_free_range-free_pages_example : (phys_free_range 0x3000 5 empty).free_pages ≡ 5
phys_free_range-free_pages_example = phys_free_range-free_pages 0x3000 5 empty (omega arith)
