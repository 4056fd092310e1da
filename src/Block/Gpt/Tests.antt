-- ===== src/Block/Gpt/Tests.antt =====
-- The partition table at a disk of the least size that is accepted.
use open_asd.Prelude.{◌≤◌, ◌≡◌, refl, ◌↔◌, true, false, [], ◌∷◌, arith, ok, take}
use open_asd.Block.Gpt.{
  BlockDev, is_partitioned, parts_bytes, gpt_init_single_disk, crc32_compute, crc_from, crc32_entry,
}
use open_asd.Block.Gpt.Layout.{gpt_init_single_disk-beyond}
use open_asd.Block.Gpt.Blank.{IsBlank, Fits, gpt_init_single_disk-Fits}

abbrev disk : BlockDev
disk = record {
  sector_size = 512;
  sector_count = 1049634;
  can_read = true;
  can_write = true;
  unreadable = λ lba. false;
  unwritable = λ lba. false;
  sectors = λ lba. [];
}

gpt_init_single_disk-beyond_example : (gpt_init_single_disk disk).1.sectors 1049634 ≡ []
gpt_init_single_disk-beyond_example = gpt_init_single_disk-beyond disk 1049634 (omega arith)

not_partitioned : is_partitioned (disk.sectors 0) disk ≡ false
unfolding is_partitioned
not_partitioned = refl

disk-IsBlank : IsBlank disk
disk-IsBlank = record {
  reads = refl;
  writes = refl;
  sector = refl;
  readable = λ lba. refl;
  writable = λ lba. refl;
  no_table = not_partitioned;
}

gpt_init_single_disk-Fits_example :
    ((gpt_init_single_disk disk).0 ≡ ok)
    × ((gpt_init_single_disk disk).1.sectors 2 ≡ take 512 (parts_bytes 1049634))
    × ((((gpt_init_single_disk disk).0 ≡ ok) × Fits 1049634) ↔ (1050658 ≤ 1049634))
gpt_init_single_disk-Fits_example = gpt_init_single_disk-Fits disk disk-IsBlank

-- The checksum of "123456789".
check_value : crc32_compute (49 ∷ 50 ∷ 51 ∷ 52 ∷ 53 ∷ 54 ∷ 55 ∷ 56 ∷ 57 ∷ []) ≡ 0xCBF43926
unfolding crc32_compute crc_from crc32_entry
check_value = refl
