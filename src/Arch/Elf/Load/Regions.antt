-- ===== src/Arch/Elf/Load/Regions.antt =====
-- The address space of a program that `elf_load` of kernel/arch/elf.c has loaded.
use open_asd.Prelude.{
  ℕ, zero, suc, ◌+◌, ◌*◌, ◌%◌, ◌^◌, ◌≤◌, ◌<◌, ◌≡◌, refl, sym, ap, ◌∙◌, ◌⊎◌, inl, inr, Bool, true,
  false, not, Option, none, some, List, [], ◌∷◌, map, arith, ltb, ◌==◌, Bool-cases, length,
  if◌then◌else◌,
}
use mathlib.Core.Path.{subst}
use open_asd.Prelude.Find.{on_some-eq-some}
use open_asd.Mm.Region.{Region, VMap, region_add, insert_sorted, insert_behind}
use open_asd.Mm.Region.Sorted.{Every, IsValid}
use open_asd.Mm.Region.Add.{added-IsValid, region_add_lem}
use open_asd.Arch.Elf.{page_size}
use open_asd.Arch.Elf.Load.{
  pt_load, pt_interp, ehdr_size, read_ehdr, is_loadable, fill_segment, Phdr, phdr_size, Space,
  segment_region, is_placeable, added_to, load_segment, load_header, read_phdr, load_headers,
  elf_load,
}

-- A region as the loader makes them: of whole pages from a page on, below the kernel's half, not
-- empty and of at most 64 MiB.
abbrev pub IsBounded : Region → Type 0
IsBounded r =
    (r.base % page_size ≡ 0) × (r.base < 2 ^ 47) × (0 < r.size) × (r.size ≤ 64 * 1024 * 1024)

abbrev pub AllBounded : List Region → Type 0
AllBounded = Every IsBounded

insert_behind-AllBounded :
    (nr : Region) (rs : List Region)
    → IsBounded nr
    → AllBounded rs
    → AllBounded (insert_behind nr rs)
unfolding insert_behind
insert_behind-AllBounded nr [] b all = (b, tt)
insert_behind-AllBounded nr (r ∷ rs) b all = elim (Bool-cases (ltb r.base nr.base)) [
  | inl before ↦ rw before (all.0, insert_behind-AllBounded nr rs b all.1)
  | inr behind ↦ rw behind (b, all)
]

insert_sorted-AllBounded :
    (nr : Region) (rs : List Region)
    → IsBounded nr
    → AllBounded rs
    → AllBounded (insert_sorted nr rs)
unfolding insert_sorted
insert_sorted-AllBounded nr [] b all = (b, tt)
insert_sorted-AllBounded nr (r ∷ rs) b all = elim (Bool-cases (ltb nr.base r.base)) [
  | inl before ↦ rw before (b, all)
  | inr behind ↦ rw behind (all.0, insert_behind-AllBounded nr rs b all.1)
]

-- What the loader keeps of a map.
abbrev pub IsProgram : VMap → Type 0
IsProgram vm = IsValid vm × AllBounded vm.regions

none-some {ℓ} : {A : Type ℓ} {a : A} → none ≡ some a → ⊥
none-some e = cc

abbrev vm_of : VMap → Option (ℕ × VMap) → VMap
vm_of d none = d
vm_of d (some a) = a.1

added-IsProgram :
    (next : ℕ) (vm : VMap) (nr : Region) (a : ℕ × VMap)
    → IsProgram vm
    → IsBounded nr
    → added_to (region_add next (some vm) nr) ≡ some a
    → IsProgram a.1
added-IsProgram next vm nr a v b e =
    elim (region_add_lem next vm nr v.0 (omega arith) (omega arith)) [
      | inl (fits, same) ↦
          subst IsProgram (ap (vm_of vm) (sym (ap added_to same) ∙ e))
            (added-IsValid next vm nr v.0 fits, insert_sorted-AllBounded nr vm.regions b v.1)
      | inr (misfit, same) ↦ absurd (none-some (sym (ap added_to same) ∙ e))
    ]

placeable-IsBounded :
    (ph : Phdr) (size : ℕ) → is_placeable ph size ≡ true → IsBounded (segment_region ph)
unfolding is_placeable
placeable-IsBounded ph size h = (omega arith, ground arith, ground arith, ground arith)

-- Behind an early return.
past_test {ℓ} :
    {A : Type ℓ} (b : Bool) (o : Option A) (a : A)
    → (if b then none else o) ≡ some a
    → (b ≡ false) × (o ≡ some a)
past_test true o a e = cc
past_test false o a e = (refl, e)

not-false : (b : Bool) → not b ≡ false → b ≡ true
not-false true e = refl
not-false false e = cc

abbrev vm_in : VMap → Option Space → VMap
vm_in d none = d
vm_in d (some s) = s.vm

abbrev program_of : Option (ℕ × Space) → Option Space
program_of none = none
program_of (some r) = some r.1

keeps_vm : (s t : Space) → IsProgram s.vm → some s ≡ some t → IsProgram t.vm
keeps_vm s t v e = subst IsProgram (ap (vm_in s.vm) e) v

module _ (populate : (ℕ → Bool) → Region → Option (ℕ → Bool)) where
  load_segment-IsProgram :
      (ph : Phdr) (image : List ℕ) (s t : Space)
      → IsProgram s.vm
      → load_segment populate ph image s ≡ some t
      → IsProgram t.vm
  unfolding load_segment
  load_segment-IsProgram ph image s t v e =
      let (fits, e1) = past_test (not (is_placeable ph (length image))) _ t e in
      let (a, map, e2) =
        on_some-eq-some (added_to (region_add s.next_region (some s.vm) (segment_region ph))) _ t
          e1 in
      let (mapped, pages, e3) = on_some-eq-some (populate s.mapped (segment_region ph)) _ t e2 in
      let (mem, bytes, e4) = on_some-eq-some (fill_segment ph image mapped s.mem) _ t e3 in
      keeps_vm (record { next_region = a.0; vm = a.1; mapped = mapped; mem = mem }) t
        (added-IsProgram s.next_region s.vm (segment_region ph) a v
          (placeable-IsBounded ph (length image) (not-false (is_placeable ph (length image)) fits))
          map)
        e4

  load_header-IsProgram :
      (ph : Phdr) (image : List ℕ) (s t : Space)
      → IsProgram s.vm
      → load_header populate ph image s ≡ some t
      → IsProgram t.vm
  unfolding load_header
  load_header-IsProgram ph image s t v e =
      let (no_interp, e1) = past_test (ph.p_type == pt_interp) _ t e in
      by_type (Bool-cases (ph.p_type == pt_load)) e1
    where
      by_type :
          ((ph.p_type == pt_load) ≡ true) ⊎ ((ph.p_type == pt_load) ≡ false)
          → (if ph.p_type == pt_load then load_segment populate ph image s else some s) ≡ some t
          → IsProgram t.vm
      by_type (inl segment) h =
          load_segment-IsProgram ph image s t v
            (sym (ap (λ b. if b then load_segment populate ph image s else some s) segment) ∙ h)
      by_type (inr other) h =
          keeps_vm s t v
            (sym (ap (λ b. if b then load_segment populate ph image s else some s) other) ∙ h)

  load_headers-IsProgram :
      (n at size : ℕ) (image : List ℕ) (s t : Space)
      → IsProgram s.vm
      → load_headers populate n at size image s ≡ some t
      → IsProgram t.vm
  unfolding load_headers
  load_headers-IsProgram zero at size image s t v e = keeps_vm s t v e
  load_headers-IsProgram (suc n) at size image s t v e =
      let (s1, one, rest) =
        on_some-eq-some
          (if ltb (length image) (at + phdr_size)
            then none
            else load_header populate (read_phdr at image) image s)
          (λ s1. load_headers populate n (at + size) size image s1) t e in
      load_headers-IsProgram n (at + size) size image s1 t
        (load_header-IsProgram (read_phdr at image) image s s1 v
          (past_test (ltb (length image) (at + phdr_size)) _ s1 one).1)
        rest

  -- Whatever the image is, when `elf_load` succeeds on an address space whose regions are sorted,
  -- disjoint and counted, and are regions of whole pages, not empty, of at most 64 MiB and beginning below
  -- 2^47, the regions that the program has then are so, too.
  pub elf_load-IsProgram :
      (image : List ℕ) (s : Space) (entry : ℕ) (t : Space)
      → IsProgram s.vm
      → elf_load populate image s ≡ some (entry, t)
      → IsProgram t.vm
  unfolding elf_load
  elf_load-IsProgram image s entry t v e =
      let eh = read_ehdr image in
      let (long, e1) = past_test (ltb (length image) ehdr_size) _ (entry, t) e in
      let (sound, e2) = past_test (not (is_loadable eh (length image))) _ (entry, t) e1 in
      let (loaded, headers, e3) =
        on_some-eq-some (load_headers populate eh.phnum eh.phoff eh.phentsize image s) _ (entry, t)
          e2 in
      let (start, e4) = past_test (eh.entry == 0) _ (entry, t) e3 in
      keeps_vm loaded t
        (load_headers-IsProgram eh.phnum eh.phoff eh.phentsize image s loaded v headers)
        (ap program_of e4)
