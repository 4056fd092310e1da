-- ===== src/Mm/Phys.antt =====
-- kernel/mm/mm.c: the physical page allocator. A free list is the list of the addresses of its
-- blocks, whose links the source keeps in the blocks themselves; the page information is a function
-- of the page number. Addresses and counts are 64 bits wide.
pub mod Boot
pub mod Range
mod Tests
use open_asd.Prelude.{
  ℕ, zero, suc, ◌+◌, ◌-◌, ◌*◌, ◌/◌, ◌%◌, ◌^◌, bit_and, bit_xor, not, ◌||◌, Option, none, some, List,
  [], ◌∷◌, ltb, ◌==◌, set, get_or, if◌then◌else◌,
}

abbrev pub max_order : ℕ
max_order = 18

abbrev pub page_size : ℕ
page_size = 4096

abbrev pub page_free : ℕ
page_free = 1

abbrev pub page_alloc : ℕ
page_alloc = 2

-- `page_info_t`
pub record PageInfo : Type 0 where
  pub flags : ℕ
  pub order : ℕ
  pub refcount : ℕ

-- `phys_state_t` and the page information.
pub record Phys : Type 0 where
  pub lists : List (List ℕ)
  pub free_pages : ℕ
  pub total_pages : ℕ
  pub phys_base : ℕ
  pub phys_top : ℕ
  pub info : ℕ → PageInfo

abbrev pub set_info : ℕ → PageInfo → Phys → Phys
set_info paddr pi s = record s { info = λ pfn. if pfn == paddr / page_size then pi else s.info pfn }

unfoldable pub phys_free_block : ℕ → ℕ → Phys → Phys
phys_free_block paddr order s =
    let pi = s.info (paddr / page_size) in
    set_info paddr (record pi { flags = page_free; order = order % 2 ^ 8 })
      (record s {
        lists = set s.lists order (paddr ∷ get_or s.lists order []);
        free_pages = (s.free_pages + 2 ^ order) % 2 ^ 64;
      })

-- "Find highest order that fits and is naturally aligned", from an order down.
unfoldable pub pick_order : ℕ → ℕ → ℕ → ℕ → ℕ
pick_order zero base i pages = 0
pick_order (suc o) base i pages =
    let lower = pick_order o base i pages in
    let addr = (base + i * page_size) % 2 ^ 64 in
    if ltb pages (i + 2 ^ suc o)
    then lower
    else if not (bit_and addr (2 ^ suc o * page_size - 1) == 0)
    then lower
    else suc o

-- The loop of `phys_free_range` from page `i` on. A turn frees at least one page, so as many turns as
-- pages are enough.
unfoldable pub free_from : ℕ → ℕ → ℕ → ℕ → Phys → Phys
unfolding phys_free_block
free_from zero base i pages s = s
free_from (suc k) base i pages s =
    let order = pick_order max_order base i pages in
    let rest =
      free_from k base (i + 2 ^ order) pages
        (phys_free_block ((base + i * page_size) % 2 ^ 64) order s) in
    if ltb i pages then rest else s

unfoldable pub phys_free_range : ℕ → ℕ → Phys → Phys
unfolding free_from
phys_free_range base pages s = free_from pages base 0 pages s

-- "Split down to requested order": the upper halves of a block go back to the lists.
unfoldable pub split : ℕ → ℕ → ℕ → Phys → Phys
unfolding phys_free_block
split zero order paddr s = s
split (suc o) order paddr s =
    let rest = split o order paddr (phys_free_block (bit_xor paddr (page_size * 2 ^ o)) o s) in
    if ltb order (suc o) then rest else s

-- The loop over the orders from `o` on, for `n` more turns.
unfoldable pub alloc_from : ℕ → ℕ → ℕ → Phys → ℕ × Phys
unfolding split
alloc_from zero o order s = (0, s)
alloc_from (suc n) o order s =
    let rest = alloc_from n (o + 1) order s in
    elim (get_or s.lists o []) [
      | [] ↦ rest
      | paddr ∷ blocks ↦
          let s1 = split o order paddr (record s {
            lists = set s.lists o blocks;
            free_pages = (s.free_pages + 2 ^ 64 - 2 ^ o) % 2 ^ 64;
          }) in
          (
            paddr,
            set_info paddr (record { flags = page_alloc; order = order % 2 ^ 8; refcount = 1 }) s1,
          )
    ]

-- `amm_phys_alloc` after the early boot.
unfoldable pub amm_phys_alloc : ℕ → Phys → ℕ × Phys
unfolding alloc_from
amm_phys_alloc order s =
    if ltb max_order order then (0, s) else alloc_from (max_order + 1 - order) order order s

-- "Unlink buddy from free list"
unfoldable pub unlink_block : ℕ → List ℕ → Option (List ℕ)
unlink_block b [] = none
unlink_block b (x ∷ xs) =
    if x == b then some xs else elim (unlink_block b xs) [ none ↦ none | some ys ↦ some (x ∷ ys) ]

unfoldable pub take_buddy : ℕ → ℕ → Phys → Phys
unfolding unlink_block
take_buddy buddy order s = elim (unlink_block buddy (get_or s.lists order [])) [
  | none ↦ s
  | some blocks ↦ record s {
    lists = set s.lists order blocks;
    free_pages = (s.free_pages + 2 ^ 64 - 2 ^ order) % 2 ^ 64;
  }
]

-- The loop of `amm_phys_free` with what follows it, for `n` = MAX_ORDER - order more turns.
unfoldable pub merge : ℕ → ℕ → ℕ → Phys → Phys
unfolding phys_free_block take_buddy
merge zero paddr order s = phys_free_block paddr order s
merge (suc n) paddr order s =
    let buddy = bit_xor paddr (page_size * 2 ^ order) in
    let bi = s.info (buddy / page_size) in
    let up =
      merge n (if ltb paddr buddy then paddr else buddy) (order + 1) (take_buddy buddy order s) in
    if (bit_and bi.flags page_free == 0) || not (bi.order == order)
    then phys_free_block paddr order s
    else up

unfoldable pub amm_phys_free : ℕ → ℕ → Phys → Phys
unfolding merge
amm_phys_free paddr order s = merge (max_order - order) paddr order s
