-- ===== src/Mm/Region/Add.antt =====
-- Adding and removing regions keeps the list of a map sorted and free of overlaps.
use open_asd.Prelude.{
  ℕ, suc, ◌+◌, ◌%◌, ◌^◌, ◌≤◌, ◌<◌, ◌≡◌, refl, sym, ap, ◌∙◌, ◌↔◌, ◌⊎◌, inl, inr, true, false, some,
  List, [], ◌∷◌, map, arith, ok, fail, ltb, leb, ◌==◌, Bool-cases, Option-cases, length,
}
use native.Mathlib.Decide.{dec_lt}
use mathlib.Core.Bool.{false≢true}
use mathlib.Core.Path.{subst}
use open_asd.Mm.Region.{
  Region, VMap, region_overlaps, region_alloc, insert_behind, insert_sorted, region_add, unlink,
  region_remove, max_regions,
}
use open_asd.Mm.Region.Sorted.{Every, SortedFrom, IsSorted, IsValid, Apart, Fits, SortedFrom-weaken}
use open_asd.Mm.Region.Overlap.{region_overlaps_iff}

pub length-insert_behind :
    (nr : Region) (rs : List Region) → length (insert_behind nr rs) ≡ suc (length rs)
unfolding insert_behind
length-insert_behind nr [] = refl
length-insert_behind nr (r ∷ rs) = ground (arith, length-insert_behind nr rs)

pub length-insert_sorted :
    (nr : Region) (rs : List Region) → length (insert_sorted nr rs) ≡ suc (length rs)
unfolding insert_sorted
length-insert_sorted nr [] = refl
length-insert_sorted nr (r ∷ rs) = ground (arith, length-insert_behind nr rs)

insert_behind-SortedFrom :
    (lo : ℕ) (nr : Region) (rs : List Region)
    → lo ≤ nr.base
    → 0 < nr.size
    → nr.base + nr.size < 2 ^ 64
    → SortedFrom lo rs
    → Every (Apart nr.base (nr.base + nr.size)) rs
    → SortedFrom lo (insert_behind nr rs)
unfolding insert_behind
insert_behind-SortedFrom lo nr [] a b c s h = (a, b, c, tt)
insert_behind-SortedFrom lo nr (r ∷ rs) a b c s h = elim (Bool-cases (ltb r.base nr.base)) [
  | inl e ↦
      rw e
        (s.0, s.1, s.2, insert_behind-SortedFrom (r.base + r.size) nr rs (ground arith) b c s.3 h.1)
  | inr e ↦ rw e (a, b, c, (ground arith, s.1, s.2, s.3))
]

insert_sorted-SortedFrom :
    (nr : Region) (rs : List Region)
    → 0 < nr.size
    → nr.base + nr.size < 2 ^ 64
    → IsSorted rs
    → Every (Apart nr.base (nr.base + nr.size)) rs
    → IsSorted (insert_sorted nr rs)
unfolding insert_sorted
insert_sorted-SortedFrom nr [] b c s h = (omega arith, b, c, tt)
insert_sorted-SortedFrom nr (r ∷ rs) b c s h = elim (Bool-cases (ltb nr.base r.base)) [
  | inl e ↦ rw e (omega arith, b, c, (ground arith, s.1, s.2, s.3))
  | inr e ↦ rw e (
    omega arith,
    s.1,
    s.2,
    insert_behind-SortedFrom (r.base + r.size) nr rs (ground arith) b c s.3 h.1,
  )
]

-- The map with a region more.
abbrev pub added : VMap → Region → VMap
added map nr = record map {
  regions = insert_sorted nr map.regions;
  region_count = (map.region_count + 1) % 2 ^ 32;
}

region_add_fits :
    (next : ℕ) (map : VMap) (nr : Region)
    → 0 < nr.size
    → region_overlaps (some map) nr.base nr.size ≡ false
    → next < max_regions
    → region_add next (some map) nr ≡ (ok, next + 1, some (added map nr))
unfolding region_add region_alloc
region_add_fits next map nr p free room = rw (pos, free, left) refl
  where
    pos : (nr.size == 0) ≡ false
    pos = ground arith

    left : leb max_regions next ≡ false
    left = ground arith

region_add_fails :
    (next : ℕ) (map : VMap) (nr : Region)
    → (nr.size ≡ 0) ⊎ (region_overlaps (some map) nr.base nr.size ≡ true) ⊎ (max_regions ≤ next)
    → region_add next (some map) nr ≡ (fail, next, some map)
unfolding region_add region_alloc
region_add_fails next map nr h = ground arith

-- A region is added exactly when it is not empty, ends inside the address space, meets no region
-- of the map, and the pool has a region left. It is then put in its place and counted, and one
-- region of the pool is used up. Otherwise the map and the pool stay as they are.
pub region_add_lem :
    (next : ℕ) (map : VMap) (nr : Region)
    → IsValid map
    → nr.base < 2 ^ 64
    → nr.size < 2 ^ 64
    → Fits next map nr × (region_add next (some map) nr ≡ (ok, next + 1, some (added map nr)))
      ⊎ (¬ Fits next map nr) × (region_add next (some map) nr ≡ (fail, next, some map))
region_add_lem next map nr v hb hs =
    elim (Bool-cases (region_overlaps (some map) nr.base nr.size)) [
      | inl met ↦ inr (
        λ f. false≢true (sym (iff.1 (inr (f.1, f.2))) ∙ met),
        region_add_fails next map nr (inr (inl met)),
      )
      | inr free ↦ elim (dec_lt next max_regions) [
        | no full ↦ inr (λ f. full f.3, region_add_fails next map nr (inr (inr (omega arith))))
        | yes room ↦ elim (iff.0 free) [
          | inl z ↦ inr (λ f. omega arith, region_add_fails next map nr (inl z))
          | inr (p, apart) ↦ elim (dec_lt 0 nr.size) [
            | yes pos ↦ inl ((pos, p, apart, room), region_add_fits next map nr pos free room)
            | no z ↦ inr (λ f. z f.0, region_add_fails next map nr (inl (omega arith)))
          ]
        ]
      ]
    ]
  where
    iff : (region_overlaps (some map) nr.base nr.size ≡ false) ↔ (
        (nr.size ≡ 0)
        ⊎ (nr.base + nr.size < 2 ^ 64) × Every (Apart nr.base (nr.base + nr.size)) map.regions)
    iff = region_overlaps_iff map nr.base nr.size v hb hs

-- A region that fits leaves the map valid.
pub added-IsValid :
    (next : ℕ) (map : VMap) (nr : Region) → IsValid map → Fits next map nr → IsValid (added map nr)
added-IsValid next map nr v f = record {
  sorted = insert_sorted-SortedFrom nr map.regions f.0 f.1 v.sorted f.2;
  counted = omega (arith, v.counted, length-insert_sorted nr map.regions);
}

unlink-SortedFrom :
    (lo base : ℕ) (rs : List Region) {rs' : List Region}
    → SortedFrom lo rs
    → unlink base rs ≡ some rs'
    → SortedFrom lo rs' × (length rs ≡ suc (length rs'))
unfolding unlink
unlink-SortedFrom lo base [] s e = cc
unlink-SortedFrom lo base (r ∷ rs) {rs'} s e = elim (Bool-cases (r.base == base)) [
  | inl here ↦
      subst Good (first here) (SortedFrom-weaken (r.base + r.size) lo rs (omega arith) s.3, refl)
  | inr on ↦ elim (Option-cases (unlink base rs)) [
    | inl gone ↦ absurd (ground arith)
    | inr (ys, tail) ↦
        let (t, l) = unlink-SortedFrom (r.base + r.size) base rs s.3 tail in
        subst Good (rest on ys tail) ((s.0, s.1, s.2, t), ap suc l)
  ]
]
  where
    Good : List Region → Type 0
    Good ys = SortedFrom lo ys × (length (r ∷ rs) ≡ suc (length ys))

    first : (r.base == base) ≡ true → rs ≡ rs'
    first here = ground arith

    rest : (r.base == base) ≡ false → (ys : List Region) → unlink base rs ≡ some ys → r ∷ ys ≡ rs'
    rest on ys tail = ground arith

-- Removing a region keeps the map valid, whether there is one at the address or not.
pub region_remove-IsValid :
    (map : VMap) (base : ℕ) → IsValid map → IsValid (region_remove map base).1
unfolding region_remove
region_remove-IsValid map base v = elim (Option-cases (unlink base map.regions)) [
  | inl e ↦ rw (e, region_remove) v
  | inr (rs, e) ↦
      let (s, l) = unlink-SortedFrom 0 base map.regions v.sorted e in
      rw (e, region_remove) (record { sorted = s; counted = omega (arith, v.counted) })
]
