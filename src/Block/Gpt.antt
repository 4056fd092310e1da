-- ===== src/Block/Gpt.antt =====
-- kernel/block/gpt.c: writing a partition table. A disk is the bytes of its sectors; the driver's calls
-- fail at the sectors that the disk names.
pub mod Layout
pub mod Blank
mod Tests
use open_asd.Prelude.{
  ℕ, zero, suc, ◌+◌, ◌-◌, ◌*◌, ◌/◌, ◌%◌, ◌^◌, min, bit_and, bit_xor, Bool, false, not, ◌&&◌, ◌||◌,
  Option, none, some, List, [], ◌∷◌, ◌++◌, Rc, ok, fail, ltb, ◌==◌, str_eq, length, get_or, take,
  drop, replicate, if◌then◌else◌,
}

abbrev pub esp_size_sectors : ℕ
esp_size_sectors = 512 * 1024 * 1024 / 512

-- `block_dev_t`; `can_read` and `can_write` say whether the pointers to the driver's functions are not
-- null.
pub record BlockDev : Type 0 where
  pub sector_size : ℕ
  pub sector_count : ℕ
  pub can_read : Bool
  pub can_write : Bool
  pub unreadable : ℕ → Bool
  pub unwritable : ℕ → Bool
  pub sectors : ℕ → List ℕ

unfoldable pub read_sector : ℕ → BlockDev → Option (List ℕ)
read_sector lba dev = if dev.unreadable lba then none else some (dev.sectors lba)

unfoldable pub write_sector : ℕ → List ℕ → BlockDev → Option BlockDev
write_sector lba bytes dev =
    if dev.unwritable lba
    then none
    else some (record dev { sectors = λ i. if i == lba then bytes else dev.sectors i })

-- One bit of an entry of the table.
abbrev pub crc_step : ℕ → ℕ
crc_step c = if bit_and c 1 == 0 then c / 2 else bit_xor (c / 2) 0xEDB88320

abbrev pub crc_steps : ℕ → ℕ → ℕ
crc_steps zero c = c
crc_steps (suc n) c = crc_steps n (crc_step c)

-- `crc32_table[i]`
unfoldable pub crc32_entry : ℕ → ℕ
crc32_entry i = crc_steps 8 i

unfoldable pub crc_from : List ℕ → ℕ → ℕ
crc_from [] c = c
crc_from (b ∷ bytes) c =
    crc_from bytes (bit_xor (crc32_entry (bit_and (bit_xor c b) 0xFF)) (c / 2 ^ 8))

unfoldable pub crc32_compute : List ℕ → ℕ
crc32_compute bytes = bit_xor (crc_from bytes 0xFFFFFFFF) 0xFFFFFFFF

-- The bytes of a number, the lowest first.
abbrev pub le : ℕ → ℕ → List ℕ
le zero v = []
le (suc n) v = v % 2 ^ 8 ∷ le n (v / 2 ^ 8)

-- The first three numbers of a GUID with their highest byte first.
unfoldable pub guid_from_bytes : ℕ → ℕ → ℕ → List ℕ → List ℕ
guid_from_bytes d1 d2 d3 rest =
    d1 / 2 ^ 24 % 2 ^ 8
    ∷ d1 / 2 ^ 16 % 2 ^ 8
    ∷ d1 / 2 ^ 8 % 2 ^ 8
    ∷ d1 % 2 ^ 8
    ∷ d2 / 2 ^ 8 % 2 ^ 8
    ∷ d2 % 2 ^ 8
    ∷ d3 / 2 ^ 8 % 2 ^ 8
    ∷ d3 % 2 ^ 8
    ∷ rest

-- 16 bits for every byte, over an array of zeros.
unfoldable pub utf8_to_utf16le : List ℕ → ℕ → List ℕ
utf8_to_utf16le s max_chars =
    take (max_chars - 1) s ++ replicate (max_chars - min (max_chars - 1) (length s)) 0

unfoldable pub disk_sector0_is_fat : List ℕ → Bool
disk_sector0_is_fat sec =
    (get_or sec 510 0 == 0x55)
    && (get_or sec 511 0 == 0xAA)
    && (str_eq (take 3 (drop 82 sec)) (b'F' ∷ b'A' ∷ b'T' ∷ [])
        || str_eq (take 3 (drop 54 sec)) (b'F' ∷ b'A' ∷ b'T' ∷ []))

-- `gpt_part_t`
pub record GptPart : Type 0 where
  pub type_guid : List ℕ
  pub part_guid : List ℕ
  pub first_lba : ℕ
  pub last_lba : ℕ
  pub attrs : ℕ
  pub name : List ℕ

abbrev pub utf16_bytes : List ℕ → List ℕ
utf16_bytes [] = []
utf16_bytes (c ∷ cs) = le 2 c ++ utf16_bytes cs

abbrev pub part_bytes : GptPart → List ℕ
part_bytes p =
    p.type_guid
    ++ (p.part_guid
        ++ (le 8 p.first_lba ++ (le 8 p.last_lba ++ (le 8 p.attrs ++ utf16_bytes p.name))))

unfoldable pub esp_type : List ℕ
esp_type =
    guid_from_bytes 0xC12A7328 0xF81F 0x11D2
      (0xBA ∷ 0x4B ∷ 0x00 ∷ 0xA0 ∷ 0xC9 ∷ 0x3E ∷ 0xC9 ∷ 0x3B ∷ [])

unfoldable pub root_type : List ℕ
root_type =
    guid_from_bytes 0x0FC63DAF 0x8483 0x4772
      (0x8E ∷ 0x79 ∷ 0x3D ∷ 0x69 ∷ 0xD8 ∷ 0x47 ∷ 0x7D ∷ 0xE4 ∷ [])

abbrev pub first_usable : ℕ
first_usable = 2048

abbrev pub last_usable : ℕ → ℕ
last_usable total = total - 34

-- `g_gpt_parts[0]`: 512 MiB from the first usable sector on.
unfoldable pub esp_part : GptPart
esp_part = record {
  type_guid = esp_type;
  part_guid = esp_type;
  first_lba = first_usable;
  last_lba = first_usable + esp_size_sectors - 1;
  attrs = 0;
  name = utf8_to_utf16le (b'E' ∷ b'S' ∷ b'P' ∷ []) 36;
}

-- `g_gpt_parts[1]`: from there to the last usable sector.
unfoldable pub root_part : ℕ → GptPart
root_part total = record {
  type_guid = root_type;
  part_guid = root_type;
  first_lba = first_usable + esp_size_sectors;
  last_lba = last_usable total;
  attrs = 0;
  name = utf8_to_utf16le (b'A' ∷ b'S' ∷ b'D' ∷ b' ' ∷ b'r' ∷ b'o' ∷ b'o' ∷ b't' ∷ []) 36;
}

-- The 128 entries.
unfoldable pub parts_bytes : ℕ → List ℕ
parts_bytes total = part_bytes esp_part ++ (part_bytes (root_part total) ++ replicate (126 * 128) 0)

-- `gpt_header_t` up to its padding: the signature, revision 1.0, a size of 92 bytes.
unfoldable pub header_bytes : ℕ → ℕ → ℕ → ℕ → ℕ → List ℕ
header_bytes total crc current backup entries =
    (b'E' ∷ b'F' ∷ b'I' ∷ b' ' ∷ b'P' ∷ b'A' ∷ b'R' ∷ b'T' ∷ [])
    ++ (le 4 0x00010000
        ++ (le 4 92
            ++ (le 4 crc
                ++ (le 4 0
                    ++ (le 8 current
                        ++ (le 8 backup
                            ++ (le 8 first_usable
                                ++ (le 8 (last_usable total)
                                    ++ (replicate 16 0x11
                                        ++ (le 8 entries
                                            ++ (le 4 128
                                                ++ (le 4 128
                                                    ++ le 4 (
                                                        crc32_compute
                                                          (parts_bytes total))))))))))))))

-- The sector of a header, with the checksum of the header that has none.
unfoldable pub header_sector : ℕ → ℕ → ℕ → ℕ → List ℕ
header_sector total current backup entries =
    header_bytes total (crc32_compute (header_bytes total 0 current backup entries)) current backup
      entries
    ++ replicate 420 0

-- `mbr_t`: one partition of type 0xEE over the disk.
unfoldable pub pmbr_bytes : ℕ → List ℕ
pmbr_bytes total =
    replicate 446 0
    ++ ((0 ∷ 0 ∷ 0 ∷ 0 ∷ 0xEE ∷ 0 ∷ 0 ∷ 0 ∷ [])
        ++ (le 4 1 ++ (le 4 (min total 0xFFFFFFFF) ++ (replicate 48 0 ++ le 2 0xAA55))))

-- "Write partition entries one sector at a time": `n` sectors from `lba` on.
unfoldable pub entry_writes : ℕ → ℕ → List ℕ → List (ℕ × List ℕ)
entry_writes zero lba bytes = []
entry_writes (suc n) lba bytes = (lba, take 512 bytes) ∷ entry_writes n (lba + 1) (drop 512 bytes)

-- The sectors that are written, in order.
unfoldable pub gpt_writes : ℕ → List (ℕ × List ℕ)
gpt_writes total =
    (0, pmbr_bytes total)
    ∷ (entry_writes 32 2 (parts_bytes total)
        ++ ((1, header_sector total 1 (total - 1) 2)
            ∷ (entry_writes 32 (total - 33) (parts_bytes total)
                ++ ((total - 1, header_sector total (total - 1) 1 (total - 33)) ∷ []))))

abbrev pub go_on : Option BlockDev → BlockDev → (BlockDev → Rc × BlockDev) → Rc × BlockDev
go_on none dev rest = (fail, dev)
go_on (some written) dev rest = rest written

-- Up to the first write that fails.
unfoldable pub write_all : List (ℕ × List ℕ) → BlockDev → Rc × BlockDev
write_all [] dev = (ok, dev)
write_all (w ∷ ws) dev = go_on (write_sector w.0 w.1 dev) dev (write_all ws)

-- A disk that has a FAT sector or a GPT header is left alone.
unfoldable pub is_partitioned : List ℕ → BlockDev → Bool
is_partitioned sec dev =
    (get_or sec 510 0 == 0x55)
    && (get_or sec 511 0 == 0xAA)
    && (disk_sector0_is_fat sec || elim (read_sector 1 dev) [
      | none ↦ false
      | some hdr ↦ str_eq (take 8 hdr) (b'E' ∷ b'F' ∷ b'I' ∷ b' ' ∷ b'P' ∷ b'A' ∷ b'R' ∷ b'T' ∷ [])
    ])

-- From the first sector on.
unfoldable pub write_table : Option (List ℕ) → BlockDev → Rc × BlockDev
write_table none dev = (fail, dev)
write_table (some sec) dev =
    if is_partitioned sec dev then (ok, dev) else write_all (gpt_writes dev.sector_count) dev

-- The pointer to the device is not null.
unfoldable pub gpt_init_single_disk : BlockDev → Rc × BlockDev
gpt_init_single_disk dev =
    if not dev.can_write || not dev.can_read || not (dev.sector_size == 512)
    then (fail, dev)
    else if ltb dev.sector_count (34 + esp_size_sectors + 1024)
    then (fail, dev)
    else write_table (read_sector 0 dev) dev
