-- ===== src/Mm/Region/Sorted.antt =====
-- The invariant of a list of regions, and predicates on its members.
use open_asd.Prelude.{ℕ, ◌+◌, ◌%◌, ◌^◌, ◌≤◌, ◌<◌, ◌≡◌, ◌⊎◌, inl, List, [], ◌∷◌, map, arith, length}
use open_asd.Mm.Region.{Region, VMap, max_regions}

-- A predicate of every region of a list.
abbrev pub Every : (Region → Type 0) → List Region → Type 0
Every P [] = Unit {0}
Every P (r ∷ rs) = P r × Every P rs

-- Ordered by address, disjoint, not empty, and no region ends at or past 2 ^ 64. All begin at or
-- above `lo`.
abbrev pub SortedFrom : ℕ → List Region → Type 0
SortedFrom lo [] = Unit {0}
SortedFrom lo (r ∷ rs) =
    (lo ≤ r.base) × (0 < r.size) × (r.base + r.size < 2 ^ 64) × SortedFrom (r.base + r.size) rs

abbrev pub IsSorted : List Region → Type 0
IsSorted rs = SortedFrom 0 rs

-- A map's regions are sorted, and the counter is their number (in 32 bits).
pub record IsValid (map : VMap) : Type 0 where
  pub sorted : IsSorted map.regions
  pub counted : map.region_count ≡ length map.regions % 2 ^ 32

-- An address lies in a region.
abbrev pub Holds : ℕ → Region → Type 0
Holds addr r = (r.base ≤ addr) × (addr < r.base + r.size)

-- No address of [base, e) lies in a region.
abbrev pub Apart : ℕ → ℕ → Region → Type 0
Apart base e r = (e ≤ r.base) ⊎ (r.base + r.size ≤ base)

pub SortedFrom-weaken :
    (lo lo' : ℕ) (rs : List Region) → lo' ≤ lo → SortedFrom lo rs → SortedFrom lo' rs
SortedFrom-weaken lo lo' [] h s = tt
SortedFrom-weaken lo lo' (r ∷ rs) h s = (omega arith, s.1, s.2, s.3)

-- A list that begins above an interval is apart from it.
pub Apart-of-SortedFrom :
    (base e : ℕ) (rs : List Region) → SortedFrom e rs → Every (Apart base e) rs
Apart-of-SortedFrom base e [] s = tt
Apart-of-SortedFrom base e (r ∷ rs) s = (
  inl s.0,
  Apart-of-SortedFrom base e rs (SortedFrom-weaken (r.base + r.size) e rs (omega arith) s.3),
)

-- What `amm_region_add` asks of a region.
abbrev pub Fits : ℕ → VMap → Region → Type 0
Fits next map nr =
    (0 < nr.size)
    × (nr.base + nr.size < 2 ^ 64)
    × Every (Apart nr.base (nr.base + nr.size)) map.regions
    × (next < max_regions)
