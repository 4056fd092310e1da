-- ===== src/Mm/Region/Lookup.antt =====
-- What `amm_region_find` finds, and how the other operations change it.
use open_asd.Prelude.{
  ℕ, ◌+◌, ◌^◌, ◌≤◌, ◌<◌, ◌≡◌, refl, ◌≢◌, ◌↔◌, ◌⊎◌, inl, inr, Bool, false, ◌&&◌, Option, none, some,
  List, [], ◌∷◌, map, arith, ok, fail, ltb, leb, ◌==◌, ==_iff, Bool-cases, Option-cases,
  if◌then◌else◌,
}
use open_asd.Mm.Region.{
  Region, VMap, insert_behind, insert_sorted, unlink, region_remove, find_from, region_find,
}
use open_asd.Mm.Region.Sorted.{Every, SortedFrom, IsSorted, IsValid, Apart, Fits, Holds}
use open_asd.Mm.Region.Add.{added}

-- A region is one of a list.
abbrev pub Member : Region → List Region → Type 0
Member r [] = ⊥
Member r (x ∷ rs) = (r ≡ x) ⊎ Member r rs

-- The test of the code on one region.
abbrev pub holds : ℕ → Region → Bool
holds addr r = leb r.base addr && ltb addr (r.base + r.size)

-- The region found, if any, begins at `base`.
abbrev pub starts : ℕ → Option Region → Bool
starts base none = false
starts base (some r) = r.base == base

find_below :
    (addr lo : ℕ) (rs : List Region) → SortedFrom lo rs → addr < lo → find_from addr rs ≡ none
unfolding find_from
find_below addr lo [] s h = refl
find_below addr lo (r ∷ rs) s h = ground arith

find_sound :
    (addr lo : ℕ) (rs : List Region) (r : Region)
    → SortedFrom lo rs
    → find_from addr rs ≡ some r
    → Member r rs × Holds addr r
unfolding find_from
find_sound addr lo [] r s e = cc
find_sound addr lo (x ∷ rs) r s e = ground (arith, find_sound addr (x.base + x.size) rs r s.3)

Member-above :
    (lo : ℕ) (rs : List Region) (r : Region) → SortedFrom lo rs → Member r rs → lo ≤ r.base
Member-above lo [] r s m = absurd m
Member-above lo (x ∷ rs) r s (inl e) = ground arith
Member-above lo (x ∷ rs) r s (inr m) = omega (arith, Member-above (x.base + x.size) rs r s.3 m)

find_complete :
    (addr lo : ℕ) (rs : List Region) (r : Region)
    → SortedFrom lo rs
    → Member r rs
    → Holds addr r
    → find_from addr rs ≡ some r
unfolding find_from
find_complete addr lo [] r s m h = absurd m
find_complete addr lo (x ∷ rs) r s (inl e) h = ground arith
find_complete addr lo (x ∷ rs) r s (inr m) h = ground (
  arith,
  find_complete addr (x.base + x.size) rs r s.3 m h,
  Member-above (x.base + x.size) rs r s.3 m,
)

-- In a valid map `amm_region_find` returns the region that the address lies in, and null only if
-- there is none.
pub region_find_iff :
    (map : VMap) (addr : ℕ) (r : Region)
    → IsValid map
    → (region_find map addr ≡ some r) ↔ (Member r map.regions × Holds addr r)
unfolding region_find
region_find_iff map addr r v = (
  find_sound addr 0 map.regions r v.sorted,
  λ h. find_complete addr 0 map.regions r v.sorted h.0 h.1,
)

find-insert_behind :
    (addr lo : ℕ) (nr : Region) (rs : List Region)
    → lo ≤ nr.base
    → 0 < nr.size
    → nr.base + nr.size < 2 ^ 64
    → SortedFrom lo rs
    → Every (Apart nr.base (nr.base + nr.size)) rs
    → find_from addr (insert_behind nr rs) ≡ (if holds addr nr then some nr else find_from addr rs)
unfolding insert_behind find_from
find-insert_behind addr lo nr [] a b c s h = ground arith
find-insert_behind addr lo nr (r ∷ rs) a b c s h = ground (
  arith,
  find_below addr (r.base + r.size) rs s.3,
  find-insert_behind addr (r.base + r.size) nr rs,
)

find-insert_sorted :
    (addr : ℕ) (nr : Region) (rs : List Region)
    → 0 < nr.size
    → nr.base + nr.size < 2 ^ 64
    → IsSorted rs
    → Every (Apart nr.base (nr.base + nr.size)) rs
    → find_from addr (insert_sorted nr rs) ≡ (if holds addr nr then some nr else find_from addr rs)
unfolding insert_sorted find_from
find-insert_sorted addr nr [] b c s h = ground arith
find-insert_sorted addr nr (r ∷ rs) b c s h = ground (
  arith,
  find_below addr (r.base + r.size) rs s.3,
  find-insert_behind addr (r.base + r.size) nr rs,
)

-- After a region has been added, an address in it finds it, and every other address finds what it
-- found before.
pub region_find-added :
    (next : ℕ) (map : VMap) (nr : Region) (addr : ℕ)
    → IsValid map
    → Fits next map nr
    → region_find (added map nr) addr ≡ (if holds addr nr then some nr else region_find map addr)
unfolding region_find
region_find-added next map nr addr v f = find-insert_sorted addr nr map.regions f.0 f.1 v.sorted f.2

starts_below :
    (addr lo base : ℕ) (rs : List Region)
    → SortedFrom lo rs
    → base < lo
    → starts base (find_from addr rs) ≡ false
unfolding find_from
starts_below addr lo base [] s h = refl
starts_below addr lo base (r ∷ rs) s h =
    ground (arith, starts_below addr (r.base + r.size) base rs s.3)

unlink-none :
    (base : ℕ) (rs : List Region)
    → unlink base rs ≡ none
    → (r : Region) → Member r rs
    → r.base ≢ base
unfolding unlink
unlink-none base [] e r m = absurd m
unlink-none base (x ∷ rs) e r (inl p) = ground arith
unlink-none base (x ∷ rs) e r (inr m) = unlink-none base rs (ground arith) r m

unlink-some :
    (base : ℕ) (rs rs' : List Region)
    → unlink base rs ≡ some rs'
    → (r : Region) × Member r rs × (r.base ≡ base)
unfolding unlink
unlink-some base [] rs' e = cc
unlink-some base (x ∷ rs) rs' e = elim (Bool-cases (x.base == base)) [
  | inl this ↦ (x, inl refl, (==_iff x.base base).0 this)
  | inr other ↦ elim (Option-cases (unlink base rs)) [
    | inl gone ↦ cc
    | inr (ys, tail) ↦ let (r, m, same) = unlink-some base rs ys tail in (r, inr m, same)
  ]
]

find-unlink :
    (addr lo base : ℕ) (rs : List Region) (rs' : List Region)
    → SortedFrom lo rs
    → unlink base rs ≡ some rs'
    → find_from addr rs' ≡ (if starts base (find_from addr rs) then none else find_from addr rs)
unfolding unlink find_from
find-unlink addr lo base [] rs' s e = cc
find-unlink addr lo base (r ∷ rs) rs' s e = elim (Option-cases (unlink base rs)) [
  | inl gone ↦ ground (
    arith,
    find_below addr (r.base + r.size) rs s.3,
    starts_below addr (r.base + r.size) base rs s.3,
  )
  | inr (ys, tail) ↦ ground (
    arith,
    find_below addr (r.base + r.size) rs s.3,
    starts_below addr (r.base + r.size) base rs s.3,
    find-unlink addr (r.base + r.size) base rs ys s.3 tail,
  )
]

-- `amm_region_remove` fails exactly when no region begins at the address, and changes nothing then.
-- Otherwise, when a region begins there, the addresses of that region find nothing afterwards, and every other address finds
-- what it found before.
pub region_find-remove :
    (map : VMap) (base addr : ℕ)
    → IsValid map
    → let (rc, map') = region_remove map base in
      ((rc ≡ fail) × (map' ≡ map) × ((r : Region) → Member r map.regions → r.base ≢ base))
      ⊎ ((rc ≡ ok)
          × ((r : Region) × Member r map.regions × (r.base ≡ base))
          × (region_find map' addr
              ≡ (if starts base (region_find map addr) then none else region_find map addr)))
unfolding region_find region_remove
region_find-remove map base addr v = elim (Option-cases (unlink base map.regions)) [
  | inl gone ↦ rw (gone, region_remove) (inl (refl, refl, unlink-none base map.regions gone))
  | inr (rs, e) ↦
      rw (e, region_remove)
        (inr (
          refl,
          unlink-some base map.regions rs e,
          find-unlink addr 0 base map.regions rs v.sorted e,
        ))
]
