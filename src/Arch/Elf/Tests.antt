-- ===== src/Arch/Elf/Tests.antt =====
-- Runs of the loader, and its theorems at small programs.
use open_asd.Prelude.{
  ℕ, zero, suc, ◌/◌, ◌%◌, ◌^◌, ◌≡◌, refl, Bool, true, false, Option, none, some, List, [], ◌∷◌,
  ◌++◌, arith, ok, replicate,
}
use open_asd.Mm.Region.{
  Region, region_add, region_overlaps, overlaps_from, region_alloc, insert_sorted,
}
use open_asd.Arch.Elf.{
  Memory, Pushed, write_bytes, copy_from, vm_copy_to_user, zero_from, vm_zero_user, push_user_bytes,
  push_user_u64, push_strings, push_words, push_padding, push_vectors, build_user_stack_vm,
}
use open_asd.Arch.Elf.Stack.{build_user_stack_vm-aligned}
use open_asd.Arch.Elf.Copy.{vm_copy_to_user_lem}
use open_asd.Arch.Elf.Load.{
  Space, read_ehdr, read_phdr, is_loadable, is_placeable, fill_segment, load_segment, load_header,
  load_headers, elf_load,
}
use open_asd.Arch.Elf.Load.Regions.{IsProgram, elf_load-IsProgram}

abbrev everywhere : ℕ → Bool
everywhere page = true

abbrev zeros : Memory
zeros a = 0

abbrev argv : List (List ℕ)
argv = (b's' ∷ b'h' ∷ []) ∷ (b'-' ∷ b'i' ∷ []) ∷ []

abbrev or_zero : Pushed → ℕ × Memory
or_zero none = (0, zeros)
or_zero (some s) = s

abbrev started : ℕ × Memory
started = or_zero (build_user_stack_vm everywhere argv [] zeros)

starts : build_user_stack_vm everywhere argv [] zeros ≡ some started
unfolding build_user_stack_vm push_strings push_user_bytes vm_copy_to_user copy_from push_vectors
    push_padding push_user_u64 push_words
starts = refl

build_user_stack_vm-aligned_example : started.0 % 16 ≡ 0
build_user_stack_vm-aligned_example =
    build_user_stack_vm-aligned everywhere argv [] zeros started starts

-- Across the end of a page.
vm_copy_to_user_lem_example :
    vm_copy_to_user everywhere 4094 (1 ∷ 2 ∷ 3 ∷ 4 ∷ []) zeros
    ≡ (ok, write_bytes 4094 (1 ∷ 2 ∷ 3 ∷ 4 ∷ []) zeros)
vm_copy_to_user_lem_example =
    vm_copy_to_user_lem everywhere 4094 (1 ∷ 2 ∷ 3 ∷ 4 ∷ []) zeros (omega arith)
      (λ a low high. refl)

abbrev le : ℕ → ℕ → List ℕ
le zero v = []
le (suc n) v = v % 2 ^ 8 ∷ le n (v / 2 ^ 8)

abbrev concat : List (List ℕ) → List ℕ
concat [] = []
concat (x ∷ xs) = x ++ concat xs

-- One segment of 8 bytes at 0x400010, of which the file has 4.
abbrev image : List ℕ
image =
    (0x7F ∷ 0x45 ∷ 0x4C ∷ 0x46 ∷ 2 ∷ 1 ∷ replicate 10 0)
    ++ concat (
        le 2 2
        ∷ le 2 62
        ∷ le 4 1
        ∷ le 8 0x400010
        ∷ le 8 64
        ∷ le 8 0
        ∷ le 4 0
        ∷ le 2 64
        ∷ le 2 56
        ∷ le 2 1
        ∷ le 6 0
        ∷ le 4 1
        ∷ le 4 5
        ∷ le 8 0
        ∷ le 8 0x400010
        ∷ le 8 0
        ∷ le 8 4
        ∷ le 8 8
        ∷ le 8 4096
        ∷ [])

abbrev fresh : Space
fresh = record {
  next_region = 0;
  vm = record { regions = []; cr3 = 0; region_count = 0 };
  mapped = λ p. false;
  mem = zeros;
}

abbrev populate : (ℕ → Bool) → Region → Option (ℕ → Bool)
populate mapped r = some everywhere

abbrev or_fresh : Option (ℕ × Space) → Space
or_fresh none = fresh
or_fresh (some r) = r.1

abbrev program : Space
program = or_fresh (elf_load populate image fresh)

loads : elf_load populate image fresh ≡ some (0x400010, program)
unfolding region_add region_overlaps overlaps_from region_alloc insert_sorted elf_load read_ehdr
    read_phdr is_loadable is_placeable load_headers load_header load_segment fill_segment
    vm_copy_to_user copy_from vm_zero_user zero_from
loads = refl

fresh-IsProgram : IsProgram fresh.vm
fresh-IsProgram = (record { sorted = tt; counted = refl }, tt)

elf_load-IsProgram_example : IsProgram program.vm
elf_load-IsProgram_example =
    elf_load-IsProgram populate image fresh 0x400010 program fresh-IsProgram loads
