-- ===== src/Mm/Phys/Boot.antt =====
-- kernel/mm/mm.c: the allocator of the early boot, and the reading of the memory map.
use open_asd.Prelude.{
  ℕ, ◌+◌, ◌-◌, ◌*◌, ◌/◌, ◌%◌, ◌^◌, not, ◌&&◌, ◌||◌, Option, none, some, List, [], ◌∷◌, ltb, leb,
  ◌==◌, replicate, if◌then◌else◌,
}
use open_asd.Mm.Phys.{page_size, Phys, PageInfo, phys_free_range, max_order}

-- ASD_MEM_FREE
abbrev pub mem_free : ℕ
mem_free = 0

-- `asd_mmap_entry_t`
pub record MmapEntry : Type 0 where
  pub kind : ℕ
  pub base : ℕ
  pub pages : ℕ

abbrev pub page_align_down : ℕ → ℕ
page_align_down x = x / page_size * page_size

abbrev pub page_align : ℕ → ℕ
page_align x = page_align_down ((x + (page_size - 1)) % 2 ^ 64)

abbrev pub entry_end : MmapEntry → ℕ
entry_end e = page_align_down ((e.base + e.pages * page_size) % 2 ^ 64)

abbrev pub bump_size : ℕ
bump_size = 64 * 1024 * 1024

-- `g_bump_base`, `g_bump_cur` and `g_bump_end`.
pub record Bump : Type 0 where
  pub base : ℕ
  pub cur : ℕ
  pub end_addr : ℕ

-- "Carved from the first free UEFI region >= BUMP_SIZE above 1 MiB"
unfoldable pub first_large : List MmapEntry → Option Bump
first_large [] = none
first_large (e ∷ es) =
    let rest = first_large es in
    let base = if ltb (page_align e.base) 0x100000 then 0x100000 else page_align e.base in
    if not (e.kind == mem_free)
    then rest
    else if leb (entry_end e) base || ltb (entry_end e - base) bump_size
    then rest
    else some (record { base = base; cur = base; end_addr = (base + bump_size) % 2 ^ 64 })

-- "Fallback: use the largest available free region"
unfoldable pub largest : List MmapEntry → Bump → Bump
largest [] b = b
largest (e ∷ es) b =
    let taken =
      largest es
        (record { base = page_align e.base; cur = page_align e.base; end_addr = entry_end e }) in
    let kept = largest es b in
    if not (e.kind == mem_free)
    then kept
    else if ltb (page_align e.base) (entry_end e)
        && ltb ((b.end_addr + 2 ^ 64 - b.base) % 2 ^ 64) (entry_end e - page_align e.base)
    then taken
    else kept

unfoldable pub bump_init : List MmapEntry → Bump → Bump
unfolding first_large largest
bump_init es b = elim (first_large es) [ none ↦ largest es b | some new ↦ new ]

-- The address, 0 when the pool is exhausted. `& ~(size - 1)` of a power of two is rounding down.
unfoldable pub bump_alloc : ℕ → Bump → ℕ × Bump
bump_alloc order b =
    let size = page_size * 2 ^ order % 2 ^ 64 in
    let aligned = (b.cur + size - 1) % 2 ^ 64 / size * size in
    if ltb b.end_addr ((aligned + size) % 2 ^ 64)
    then (0, b)
    else (aligned, record b { cur = (aligned + size) % 2 ^ 64 })

abbrev pub lower : ℕ → ℕ → ℕ
lower a b = if ltb a b then a else b

abbrev pub higher : ℕ → ℕ → ℕ
higher a b = if ltb b a then a else b

abbrev pub span : ℕ → ℕ → Phys → Phys
span base top s = record s { phys_base = lower base s.phys_base; phys_top = higher top s.phys_top }

-- `phys_free_range(base, pg); g_phys.total_pages += pg;`
unfoldable pub add_pages : ℕ → ℕ → Phys → Phys
add_pages base pg s =
    let freed = phys_free_range base pg s in
    record freed { total_pages = (freed.total_pages + pg) % 2 ^ 64 }

-- `if (end > g_bump_end) …`
unfoldable pub add_above : Bump → ℕ → Phys → Phys
unfolding add_pages
add_above b top s =
    if ltb b.end_addr top then add_pages b.end_addr ((top - b.end_addr) / page_size) s else s

-- One entry of the map in `amm_phys_init`.
unfoldable pub add_entry : Bump → MmapEntry → Phys → Phys
unfolding add_pages add_above
add_entry b e s0 =
    let base = page_align e.base in
    let top = entry_end e in
    let s = span base top s0 in
    if not (e.kind == mem_free) || leb top base
    then s0
    else if not (b.base == 0) && ltb base b.end_addr && ltb b.base top
    then add_above b top
        (if ltb base b.base then add_pages base ((b.base - base) / page_size) s else s)
    else add_pages base ((top - base) / page_size) s

abbrev pub blank : (ℕ → PageInfo) → Phys
blank info = record {
  lists = replicate (max_order + 1) [];
  free_pages = 0;
  total_pages = 0;
  phys_base = 2 ^ 64 - 1;
  phys_top = 0;
  info = info;
}

unfoldable pub add_entries : Bump → List MmapEntry → Phys → Phys
unfolding add_entry
add_entries b [] s = s
add_entries b (e ∷ es) s = add_entries b es (add_entry b e s)

unfoldable pub amm_phys_init : Bump → List MmapEntry → Phys → Phys
unfolding add_entries
amm_phys_init b es s = add_entries b es (blank s.info)

unfoldable pub scan_entries : List MmapEntry → Phys → Phys
scan_entries [] s = s
scan_entries (e ∷ es) s =
    let base = page_align e.base in
    let top = entry_end e in
    let seen = span base top s in
    if not (e.kind == mem_free) || leb top base
    then scan_entries es s
    else scan_entries es
        (record seen { total_pages = (seen.total_pages + (top - base) / page_size) % 2 ^ 64 })

unfoldable pub amm_early_phys_scan : List MmapEntry → Bump → Phys → Phys × Bump
unfolding scan_entries
amm_early_phys_scan es b s = (scan_entries es (blank s.info), bump_init es b)
