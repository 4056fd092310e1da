-- ===== src/Mm/Region/Tests.antt =====
-- The region theorems at concrete maps.
use open_asd.Prelude.{
  ◌+◌, ◌^◌, ◌<◌, ◌≡◌, refl, ◌≢◌, ◌↔◌, ◌⊎◌, inl, inr, false, none, some, [], ◌∷◌, map, arith, ok,
  fail, if◌then◌else◌,
}
use open_asd.Mm.Region.{
  Region, VMap, region_overlaps, region_add, region_remove, region_find, overlaps_from,
  region_alloc, insert_sorted,
}
use open_asd.Mm.Region.Sorted.{Every, IsValid, Apart, Fits, Holds}
use open_asd.Mm.Region.Reach.{created, region_added, region_removed, vmap-IsValid}
use open_asd.Mm.Region.Overlap.{region_overlaps_iff}
use open_asd.Mm.Region.Add.{added, region_add_lem}
use open_asd.Mm.Region.Lookup.{
  Member, holds, starts, region_find_iff, region_find-added, region_find-remove,
}

abbrev code : Region
code = record { base = 0x400000; size = 0x1000; prot = 5; kind = 0; fd = 0xffffffff }

abbrev stack : Region
stack = record { base = 0x7ff000; size = 0x2000; prot = 3; kind = 1; fd = 0xffffffff }

abbrev heap : Region
heap = record { base = 0x600000; size = 0x4000; prot = 3; kind = 2; fd = 0xffffffff }

abbrev two : VMap
two = record { regions = code ∷ stack ∷ []; cr3 = 0x1000; region_count = 2 }

two-IsValid : IsValid two
two-IsValid = record { sorted = omega arith; counted = omega arith }

heap-Fits : Fits 7 two heap
heap-Fits = (omega arith, omega arith, (inr (omega arith), (inl (omega arith), tt)), omega arith)

add_twice : (region_add 7 (some two) code).0 ≡ fail
unfolding region_add region_overlaps overlaps_from
add_twice = refl

region_overlaps_iff_example : (region_overlaps (some two) heap.base heap.size ≡ false) ↔ (
    (heap.size ≡ 0)
    ⊎ (0x600000 + 0x4000 < 2 ^ 64) × Every (Apart 0x600000 (0x600000 + 0x4000)) two.regions)
region_overlaps_iff_example =
    region_overlaps_iff two 0x600000 0x4000 two-IsValid (omega arith) (omega arith)

region_add_lem_example :
    Fits 7 two heap × (region_add 7 (some two) heap ≡ (ok, 8, some (added two heap)))
    ⊎ (¬ Fits 7 two heap) × (region_add 7 (some two) heap ≡ (fail, 7, some two))
region_add_lem_example = region_add_lem 7 two heap two-IsValid (omega arith) (omega arith)

region_find_iff_example :
    (region_find two 0x400fff ≡ some code) ↔ (Member code two.regions × Holds 0x400fff code)
region_find_iff_example = region_find_iff two 0x400fff code two-IsValid

region_find-added_example :
    region_find (added two heap) 0x600010
    ≡ (if holds 0x600010 heap then some heap else region_find two 0x600010)
region_find-added_example = region_find-added 7 two heap 0x600010 two-IsValid heap-Fits

region_find-remove_example :
    let (rc, map) = region_remove two 0x400000 in
    ((rc ≡ fail) × (map ≡ two) × ((r : Region) → Member r two.regions → r.base ≢ 0x400000))
    ⊎ ((rc ≡ ok)
        × ((r : Region) × Member r two.regions × (r.base ≡ 0x400000))
        × (region_find map 0x7ff000 ≡ (
            if starts 0x400000 (region_find two 0x7ff000) then none else region_find two 0x7ff000)))
region_find-remove_example = region_find-remove two 0x400000 0x7ff000 two-IsValid

abbrev new_map : VMap
new_map = record { regions = []; cr3 = 5; region_count = 0 }

abbrev with_code : VMap
with_code = record { regions = code ∷ []; cr3 = 5; region_count = 1 }

code-added : region_add 0 (some new_map) code ≡ (ok, 1, some with_code)
unfolding region_add region_overlaps overlaps_from region_alloc insert_sorted
code-added = refl

vmap-IsValid_example : IsValid (region_remove with_code 0x400000).1
vmap-IsValid_example = vmap-IsValid (region_remove with_code 0x400000).1 (
    region_removed with_code 0x400000 (
      region_added new_map with_code code 0 1 ok (omega arith) (omega arith) code-added
        (created 5)))
