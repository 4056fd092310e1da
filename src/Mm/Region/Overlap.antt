-- ===== src/Mm/Region/Overlap.antt =====
-- The overlap test decides whether an interval meets a region.
use open_asd.Prelude.{
  ℕ, ◌+◌, ◌^◌, ◌<◌, ◌≡◌, refl, ◌≢◌, ◌↔◌, ◌⊎◌, inl, inr, false, some, List, [], ◌∷◌, map, arith,
}
use native.Mathlib.Decide.{dec_lt, ℕ_discrete}
use open_asd.Mm.Region.{Region, VMap, end_of, overlaps_from, region_overlaps}
use open_asd.Mm.Region.Sorted.{
  Every, SortedFrom, IsValid, Apart, Apart-of-SortedFrom, SortedFrom-weaken,
}

overlaps_step :
    (base e lo : ℕ) (r : Region) (rs : List Region)
    → SortedFrom lo (r ∷ rs)
    → (overlaps_from base e rs ≡ false) ↔ Every (Apart base e) rs
    → (overlaps_from base e (r ∷ rs) ≡ false) ↔ Every (Apart base e) (r ∷ rs)
unfolding overlaps_from
overlaps_step base e lo r rs s ih = elim (dec_lt r.base e) [
  | no above ↦ (
    λ _. (
      inl (omega arith),
      Apart-of-SortedFrom base e rs (SortedFrom-weaken (r.base + r.size) e rs (omega arith) s.3),
    ),
    λ _. ground arith,
  )
  | yes below ↦ (λ h. (inr (ground arith), ih.0 (ground arith)), λ h. ground (arith, ih.1 h.1))
]

overlaps_from_iff :
    (base e lo : ℕ) (rs : List Region)
    → SortedFrom lo rs
    → (overlaps_from base e rs ≡ false) ↔ Every (Apart base e) rs
unfolding overlaps_from
overlaps_from_iff base e lo [] s = (λ _. tt, λ _. refl)
overlaps_from_iff base e lo (r ∷ rs) s =
    overlaps_step base e lo r rs s (overlaps_from_iff base e (r.base + r.size) rs s.3)

-- `amm_region_overlaps` answers 0 exactly when the interval is empty, or does not run past the end
-- of the address space and meets no region of the map.
pub region_overlaps_iff :
    (map : VMap) (base size : ℕ)
    → IsValid map
    → base < 2 ^ 64
    → size < 2 ^ 64
    → (region_overlaps (some map) base size ≡ false)
      ↔ ((size ≡ 0) ⊎ (base + size < 2 ^ 64) × Every (Apart base (base + size)) map.regions)
unfolding region_overlaps
region_overlaps_iff map base size v hb hs = (to, from)
  where
    Free : Type 0
    Free = (base + size < 2 ^ 64) × Every (Apart base (base + size)) map.regions

    ih :
        (overlaps_from base (base + size) map.regions ≡ false)
        ↔ Every (Apart base (base + size)) map.regions
    ih = overlaps_from_iff base (base + size) 0 map.regions v.sorted

    fits : base + size < 2 ^ 64 → end_of base size ≡ base + size
    fits h = omega arith

    to : region_overlaps (some map) base size ≡ false → (size ≡ 0) ⊎ Free
    to h = elim (ℕ_discrete size 0) [
      | yes z ↦ inl z
      | no nz ↦ elim (dec_lt (base + size) (2 ^ 64)) [
        | yes p ↦ inr (p, ih.0 (rw (fits p) at (inner nz p)))
        | no p ↦ absurd (ground arith)
      ]
    ]
      where
        inner :
            size ≢ 0
            → base + size < 2 ^ 64
            → overlaps_from base (end_of base size) map.regions ≡ false
        inner nz p = ground arith

    from : (size ≡ 0) ⊎ Free → region_overlaps (some map) base size ≡ false
    from (inl z) = ground arith
    from (inr (p, free)) = ground (arith, fits p, ih.1 free)
