-- ===== src/Mm/Slab.antt =====
-- kernel/mm/mm.c: `kmalloc` on slabs. A slab's bitmap is the list of its 288 bits; the lists of
-- slabs, by class, hold the slabs with their addresses.
use open_asd.Prelude.{
  ℕ, zero, suc, ◌+◌, ◌-◌, ◌*◌, ◌/◌, ◌%◌, ◌^◌, Bool, true, false, not, Option, none, some, List, [],
  ◌∷◌, ltb, leb, ◌==◌, set, get_or, take, replicate, if◌then◌else◌,
}
use open_asd.Prelude.Find.{find_index}
use open_asd.Mm.Phys.{Phys, page_size, amm_phys_alloc}

abbrev pub slab_sizes : List ℕ
slab_sizes = 8 ∷ 16 ∷ 32 ∷ 64 ∷ 128 ∷ 256 ∷ 512 ∷ 1024 ∷ 2048 ∷ 4096 ∷ []

abbrev pub slab_hdr_sz : ℕ
slab_hdr_sz = 64

abbrev pub phys_map_base : ℕ
phys_map_base = 0xFFFFC80000000000

-- `slab_hdr_t` at its address.
pub record Slab : Type 0 where
  pub addr : ℕ
  pub free_count : ℕ
  pub obj_size : ℕ
  pub capacity : ℕ
  pub bitmap : List Bool

-- `g_slab_heads` and the page allocator.
pub record Heap : Type 0 where
  pub heads : List (List Slab)
  pub phys : Phys

unfoldable pub slab_class : ℕ → Option ℕ
slab_class size = find_index (λ s. leb size s) slab_sizes

-- `phys_to_virt` after the early boot.
abbrev pub phys_to_virt : ℕ → ℕ
phys_to_virt p = (phys_map_base + p) % 2 ^ 64

abbrev pub min_capacity : ℕ → ℕ
min_capacity c = if ltb 288 c then 288 else c

-- `free_count` is the capacity before it is bounded by the bits of the map.
unfoldable pub slab_new : ℕ → Phys → Option Slab × Phys
slab_new cls phys =
    let obj_sz = get_or slab_sizes cls 0 in
    let pages = if leb 2048 obj_sz then 2 else 1 in
    let pa = amm_phys_alloc (if pages == 2 then 1 else 0) phys in
    let cap = (pages * page_size - slab_hdr_sz) / obj_sz in
    if pa.0 == 0 then (none, pa.1) else (
      some (record {
        addr = phys_to_virt pa.0;
        free_count = cap;
        obj_size = obj_sz;
        capacity = min_capacity cap;
        bitmap = replicate 288 false;
      }),
      pa.1,
    )

-- `while ((size_t)(PAGE_SIZE << order) < size) order++;` with the turns that are left; 52 reach
-- every size of 64 bits.
unfoldable pub order_for : ℕ → ℕ → ℕ → ℕ
order_for zero order size = order
order_for (suc k) order size =
    let more = order_for k (order + 1) size in
    if ltb (page_size * 2 ^ order) size then more else order

-- "Find first free slot via bitmap", 0 if there is none below the capacity.
unfoldable pub free_slot_of : Slab → ℕ
free_slot_of s = elim (find_index not (take s.capacity s.bitmap)) [ none ↦ 0 | some i ↦ i ]

-- The slab with one more slot taken, and the address of the slot.
unfoldable pub take_slot : Slab → ℕ × Slab
unfolding free_slot_of
take_slot s =
    let slot = free_slot_of s in
    (
      (s.addr + slab_hdr_sz + slot * s.obj_size) % 2 ^ 64,
      record s {
        bitmap = set s.bitmap slot true;
        free_count = (s.free_count + (2 ^ 32 - 1)) % 2 ^ 32;
      },
    )

unfoldable pub kmalloc : ℕ → Heap → ℕ × Heap
unfolding take_slot
kmalloc size h = if size == 0 then (0, h) else elim (slab_class size) [
  | none ↦
      let pa = amm_phys_alloc (order_for 52 0 size) h.phys in
      (if pa.0 == 0 then 0 else phys_to_virt pa.0, record h { phys = pa.1 })
  | some cls ↦
      let slabs = get_or h.heads cls [] in
      elim (find_index (λ s. not (s.free_count == 0)) slabs) [
        | some i ↦
            let r = take_slot (
              get_or slabs i
                (record { addr = 0; free_count = 0; obj_size = 0; capacity = 0; bitmap = [] })) in
            (r.0, record h { heads = set h.heads cls (set slabs i r.1) })
        | none ↦
            let new = slab_new cls h.phys in
            elim new.0 [
              | none ↦ (0, record h { phys = new.1 })
              | some s ↦
                  let r = take_slot s in
                  (r.0, record { heads = set h.heads cls (r.1 ∷ slabs); phys = new.1 })
            ]
      ]
]
