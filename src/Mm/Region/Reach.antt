-- ===== src/Mm/Region/Reach.antt =====
-- The address spaces that the calls on regions of kernel/mm/mm.c lead to.
use open_asd.Prelude.{ℕ, ◌^◌, ◌<◌, ◌≡◌, refl, sym, ap, ◌∙◌, inl, inr, Option, none, some, [], Rc}
use mathlib.Core.Path.{subst}
use open_asd.Mm.Region.{Region, VMap, region_add, region_remove}
use open_asd.Mm.Region.Sorted.{IsValid}
use open_asd.Mm.Region.Add.{added-IsValid, region_add_lem, region_remove-IsValid}

-- From a new map, by calls that add and remove regions, whether they succeed or fail.
pub data Reachable : VMap → Type 0 where
  created : (cr3 : ℕ) → Reachable (record { regions = []; cr3 = cr3; region_count = 0 })
  region_added :
      (vm vm' : VMap) (nr : Region) (next next' : ℕ) (rc : Rc)
      → nr.base < 2 ^ 64
      → nr.size < 2 ^ 64
      → region_add next (some vm) nr ≡ (rc, next', some vm')
      → Reachable vm
      → Reachable vm'
  region_removed : (vm : VMap) (base : ℕ) → Reachable vm → Reachable (region_remove vm base).1

abbrev map_of : VMap → Rc × ℕ × Option VMap → VMap
map_of d (rc, next, none) = d
map_of d (rc, next, some vm) = vm

region_add-IsValid :
    (vm vm' : VMap) (nr : Region) (next next' : ℕ) (rc : Rc)
    → nr.base < 2 ^ 64
    → nr.size < 2 ^ 64
    → region_add next (some vm) nr ≡ (rc, next', some vm')
    → IsValid vm
    → IsValid vm'
region_add-IsValid vm vm' nr next next' rc hb hs e v = elim (region_add_lem next vm nr v hb hs) [
  | inl (fits, same) ↦
      subst IsValid (ap (map_of vm) (sym same ∙ e)) (added-IsValid next vm nr v fits)
  | inr (misfit, same) ↦ subst IsValid (ap (map_of vm) (sym same ∙ e)) v
]

-- In every address space that a new one becomes by adding and removing regions, the regions are
-- sorted, end inside the address space, do not overlap, and are counted.
pub vmap-IsValid : (vm : VMap) → Reachable vm → IsValid vm
vmap-IsValid vm (created cr3) = record { sorted = tt; counted = refl }
vmap-IsValid vm (region_added vm0 vm' nr next next' rc hb hs e past) =
    region_add-IsValid vm0 _ nr next next' rc hb hs e (vmap-IsValid vm0 past)
vmap-IsValid vm (region_removed vm0 base past) =
    region_remove-IsValid vm0 base (vmap-IsValid vm0 past)
