-- ===== src/Mm/Region.antt =====
-- kernel/mm/mm.c, the regions of an address space: `amm_region_overlaps`, `amm_region_add`,
-- `amm_region_remove`, `amm_region_find` and the pool that regions come from. The doubly linked
-- list from `map->head` on is a list, the regions in the order of their `next` pointers. Regions
-- are never given back to the pool, so its state is the number of regions handed out.
pub mod Sorted
pub mod Overlap
pub mod Add
pub mod Lookup
pub mod Reach
mod Tests
use open_asd.Prelude.{
  ℕ, ◌+◌, ◌-◌, ◌%◌, ◌^◌, Bool, true, false, ◌&&◌, Option, none, some, List, [], ◌∷◌, map, Rc, ok,
  fail, ltb, leb, ◌==◌, if◌then◌else◌,
}

-- `vregion_t`; `int` fields are bit patterns.
pub record Region : Type 0 where
  pub base : ℕ
  pub size : ℕ
  pub prot : ℕ
  pub kind : ℕ
  pub fd : ℕ

-- `vmap_t`
pub record VMap : Type 0 where
  pub regions : List Region
  pub cr3 : ℕ
  pub region_count : ℕ

abbrev pub max_regions : ℕ
max_regions = 16384

-- `base + size` in 64 bits.
abbrev pub end_of : ℕ → ℕ → ℕ
end_of base size = (base + size) % 2 ^ 64

-- The loop of `amm_region_overlaps`.
unfoldable pub overlaps_from : ℕ → ℕ → List Region → Bool
overlaps_from base e [] = false
overlaps_from base e (r ∷ rs) =
    if leb (end_of r.base r.size) r.base
    then true
    else if ltb base (end_of r.base r.size) && ltb r.base e
    then true
    else if leb e r.base
    then false
    else overlaps_from base e rs

-- `none` is the null map.
unfoldable pub region_overlaps : Option VMap → ℕ → ℕ → Bool
region_overlaps none base size = false
region_overlaps (some map) base size =
    if size == 0
    then false
    else if leb (end_of base size) base
    then true
    else overlaps_from base (end_of base size) map.regions

-- `region_alloc`: the number of regions handed out after it, if the pool had one left.
unfoldable pub region_alloc : ℕ → Option ℕ
region_alloc next = if leb max_regions next then none else some (next + 1)

-- The walk to the place behind a region: `while (cur->next && cur->next->base < base)`.
unfoldable pub insert_behind : Region → List Region → List Region
insert_behind nr [] = nr ∷ []
insert_behind nr (r ∷ rs) = if ltb r.base nr.base then r ∷ insert_behind nr rs else nr ∷ r ∷ rs

unfoldable pub insert_sorted : Region → List Region → List Region
insert_sorted nr [] = nr ∷ []
insert_sorted nr (r ∷ rs) = if ltb nr.base r.base then nr ∷ r ∷ rs else r ∷ insert_behind nr rs

-- The pool's state and the map come back beside the result.
unfoldable pub region_add : ℕ → Option VMap → Region → Rc × ℕ × Option VMap
region_add next none nr = (fail, next, none)
region_add next (some map) nr =
    if nr.size == 0
    then (fail, next, some map)
    else if region_overlaps (some map) nr.base nr.size
    then (fail, next, some map)
    else elim (region_alloc next) [
      | none ↦ (fail, next, some map)
      | some next' ↦ (
        ok,
        next',
        some (record map {
          regions = insert_sorted nr map.regions;
          region_count = (map.region_count + 1) % 2 ^ 32;
        }),
      )
    ]

-- The list without the first region at `base`, if there is one.
pub unlink : ℕ → List Region → Option (List Region)
unlink base [] = none
unlink base (r ∷ rs) =
    if r.base == base
    then some rs
    else elim (unlink base rs) [ none ↦ none | some rs' ↦ some (r ∷ rs') ]

pub region_remove : VMap → ℕ → Rc × VMap
region_remove map base = elim (unlink base map.regions) [
  | none ↦ (fail, map)
  | some rs ↦
      (ok, record map { regions = rs; region_count = (map.region_count + 2 ^ 32 - 1) % 2 ^ 32 })
]

pub find_from : ℕ → List Region → Option Region
find_from addr [] = none
find_from addr (r ∷ rs) =
    if leb r.base addr && ltb addr (end_of r.base r.size)
    then some r
    else if ltb addr r.base
    then none
    else find_from addr rs

pub region_find : VMap → ℕ → Option Region
region_find map addr = find_from addr map.regions
