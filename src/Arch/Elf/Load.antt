-- ===== src/Arch/Elf/Load.antt =====
-- `elf_load` of kernel/arch/elf.c. The image is the list of its bytes, read in little-endian order.
-- `populate` is what `amm_region_populate` does to the mapped pages, none where it fails. Where the
-- source returns 0 the result is none: the caller destroys the map then.
pub mod Regions
use open_asd.Prelude.{
  ℕ, zero, suc, ◌+◌, ◌-◌, ◌*◌, ◌%◌, ◌^◌, bit_and, Bool, not, ◌&&◌, ◌||◌, Option, none, some, List,
  [], ◌∷◌, Rc, ok, fail, ltb, leb, ◌==◌, str_eq, length, take, drop, if◌then◌else◌,
}
use open_asd.Prelude.Find.{on_some}
use open_asd.Mm.Region.{Region, VMap, region_add}
use open_asd.Arch.Elf.{Memory, page_size, vm_copy_to_user, vm_zero_user}

abbrev pub et_exec : ℕ
et_exec = 2

abbrev pub et_dyn : ℕ
et_dyn = 3

abbrev pub em_x86_64 : ℕ
em_x86_64 = 62

abbrev pub pt_load : ℕ
pt_load = 1

abbrev pub pt_interp : ℕ
pt_interp = 3

-- The sizes of `elf64_ehdr_t` and `elf64_phdr_t`.
abbrev pub ehdr_size : ℕ
ehdr_size = 64

abbrev pub phdr_size : ℕ
phdr_size = 56

abbrev get_le : ℕ → List ℕ → ℕ
get_le zero bytes = 0
get_le (suc n) [] = 0
get_le (suc n) (b ∷ bytes) = b + 2 ^ 8 * get_le n bytes

-- A field of `n` bytes.
abbrev pub field : ℕ → ℕ → List ℕ → ℕ
field offset n image = get_le n (drop offset image)

-- The fields of `elf64_ehdr_t` that are read.
pub record Ehdr : Type 0 where
  pub ident : List ℕ
  pub e_type : ℕ
  pub machine : ℕ
  pub entry : ℕ
  pub phoff : ℕ
  pub phentsize : ℕ
  pub phnum : ℕ

unfoldable pub read_ehdr : List ℕ → Ehdr
read_ehdr image = record {
  ident = take 16 image;
  e_type = field 16 2 image;
  machine = field 18 2 image;
  entry = field 24 8 image;
  phoff = field 32 8 image;
  phentsize = field 54 2 image;
  phnum = field 56 2 image;
}

-- The fields of `elf64_phdr_t` that are read.
pub record Phdr : Type 0 where
  pub p_type : ℕ
  pub flags : ℕ
  pub offset : ℕ
  pub vaddr : ℕ
  pub filesz : ℕ
  pub memsz : ℕ

unfoldable pub read_phdr : ℕ → List ℕ → Phdr
read_phdr at image = record {
  p_type = field at 4 image;
  flags = field (at + 4) 4 image;
  offset = field (at + 8) 8 image;
  vaddr = field (at + 16) 8 image;
  filesz = field (at + 32) 8 image;
  memsz = field (at + 40) 8 image;
}

-- "\x7f\x45\x4c\x46", 64 bits, little-endian.
abbrev magic : List ℕ
magic = 0x7F ∷ 0x45 ∷ 0x4C ∷ 0x46 ∷ 2 ∷ 1 ∷ []

-- The tests of `elf_load` before its loop.
unfoldable pub is_loadable : Ehdr → ℕ → Bool
is_loadable eh image_size =
    str_eq (take 6 eh.ident) magic
    && (eh.machine == em_x86_64)
    && ((eh.e_type == et_exec) || (eh.e_type == et_dyn))
    && not (eh.phnum == 0)
    && leb eh.phnum 48
    && leb phdr_size eh.phentsize
    && ltb eh.phoff image_size
    && leb ((eh.phoff + eh.phnum * eh.phentsize) % 2 ^ 64) image_size

-- A program under construction.
pub record Space : Type 0 where
  pub next_region : ℕ
  pub vm : VMap
  pub mapped : ℕ → Bool
  pub mem : Memory

-- PROT_READ, with PROT_WRITE and PROT_EXEC as PF_W and PF_X say.
abbrev pub prot_of : ℕ → ℕ
prot_of flags =
    1 + (if bit_and flags 2 == 0 then 0 else 2) + (if bit_and flags 1 == 0 then 0 else 4)

abbrev pub page_align_down : ℕ → ℕ
page_align_down x = x - x % page_size

abbrev pub page_align : ℕ → ℕ
page_align x = page_align_down ((x + page_size - 1) % 2 ^ 64)

abbrev pub segment_size : Phdr → ℕ
segment_size ph =
    (page_align ((ph.vaddr + ph.memsz) % 2 ^ 64) + 2 ^ 64 - page_align_down ph.vaddr) % 2 ^ 64

-- RGN_FILE, and a descriptor of -1.
abbrev pub segment_region : Phdr → Region
segment_region ph = record {
  base = page_align_down ph.vaddr;
  size = segment_size ph;
  prot = prot_of ph.flags;
  kind = 3;
  fd = 2 ^ 32 - 1;
}

unfoldable pub is_placeable : Phdr → ℕ → Bool
is_placeable ph image_size =
    ltb ph.vaddr 0x0000800000000000
    && leb ph.offset image_size
    && leb ph.filesz (image_size - ph.offset)
    && not (segment_size ph == 0)
    && leb (segment_size ph) (64 * 1024 * 1024)

abbrev pub of_ok : Rc × Memory → Option Memory
of_ok (ok, mem) = some mem
of_ok (fail, mem) = none

-- The bytes of the file, and zeros behind them.
unfoldable pub fill_segment : Phdr → List ℕ → (ℕ → Bool) → Memory → Option Memory
fill_segment ph image mapped mem =
    on_some (of_ok (vm_copy_to_user mapped ph.vaddr (take ph.filesz (drop ph.offset image)) mem))
      (λ copied.
        if leb ph.memsz ph.filesz
        then some copied
        else of_ok
            (vm_zero_user mapped ((ph.vaddr + ph.filesz) % 2 ^ 64) (ph.memsz - ph.filesz) copied))

abbrev added_to : Rc × ℕ × Option VMap → Option (ℕ × VMap)
added_to (ok, next, some vm) = some (next, vm)
added_to (ok, next, none) = none
added_to (fail, next, vm) = none

module _ (populate : (ℕ → Bool) → Region → Option (ℕ → Bool)) where
  unfoldable pub load_segment : Phdr → List ℕ → Space → Option Space
  load_segment ph image s =
      if not (is_placeable ph (length image))
      then none
      else on_some (added_to (region_add s.next_region (some s.vm) (segment_region ph))) (λ a.
        on_some (populate s.mapped (segment_region ph)) (λ mapped.
          on_some (fill_segment ph image mapped s.mem)
            (λ mem. some (record { next_region = a.0; vm = a.1; mapped = mapped; mem = mem }))))

  -- One program header.
  unfoldable pub load_header : Phdr → List ℕ → Space → Option Space
  load_header ph image s =
      if ph.p_type == pt_interp
      then none
      else if ph.p_type == pt_load
      then load_segment ph image s
      else some s

  -- The headers from `at` on, `n` of them.
  unfoldable pub load_headers : ℕ → ℕ → ℕ → List ℕ → Space → Option Space
  load_headers zero at size image s = some s
  load_headers (suc n) at size image s =
      on_some
        (if ltb (length image) (at + phdr_size)
          then none
          else load_header (read_phdr at image) image s)
        (λ s1. load_headers n (at + size) size image s1)

  -- The entry point, and the program.
  unfoldable pub elf_load : List ℕ → Space → Option (ℕ × Space)
  elf_load image s =
      let eh = read_ehdr image in
      if ltb (length image) ehdr_size
      then none
      else if not (is_loadable eh (length image))
      then none
      else on_some (load_headers eh.phnum eh.phoff eh.phentsize image s)
          (λ loaded. if eh.entry == 0 then none else some (eh.entry, loaded))
