-- ===== src/Block/Gpt/Blank.antt =====
-- What `gpt_init_single_disk` of kernel/block/gpt.c does with a disk that has no partition table.
use open_asd.Prelude.{
  ℕ, ◌-◌, ◌≤◌, ◌<◌, ◌≡◌, refl, ap, ◌∙◌, ◌↔◌, inl, inr, true, false, List, [], ◌∷◌, ◌++◌, arith, Rc,
  ok, fail, ltb, ◌==◌, Bool-cases, take, drop, if◌then◌else◌,
}
use open_asd.Block.Gpt.{
  BlockDev, first_usable, last_usable, esp_part, root_part, parts_bytes, entry_writes, gpt_writes,
  header_sector, read_sector, write_sector, write_all, is_partitioned, write_table,
  gpt_init_single_disk,
}
use open_asd.Block.Gpt.Layout.{Avoids, Avoids-append, Avoids-entry_writes, write_all-Avoids}

-- A working disk that has no table yet.
pub record IsBlank (dev : BlockDev) : Type 0 where
  pub reads : dev.can_read ≡ true
  pub writes : dev.can_write ≡ true
  pub sector : dev.sector_size ≡ 512
  pub readable : (lba : ℕ) → dev.unreadable lba ≡ false
  pub writable : (lba : ℕ) → dev.unwritable lba ≡ false
  pub no_table : is_partitioned (dev.sectors 0) dev ≡ false

-- The partitions follow each other, are not empty, and end at the last usable sector at most.
abbrev pub Fits : ℕ → Type 0
Fits total =
    (first_usable ≤ esp_part.first_lba)
    × (esp_part.first_lba ≤ esp_part.last_lba)
    × (esp_part.last_lba < (root_part total).first_lba)
    × ((root_part total).first_lba ≤ (root_part total).last_lba)
    × ((root_part total).last_lba ≤ last_usable total)

total-Fits : (total : ℕ) → 1049634 ≤ total → Fits total ↔ (1050658 ≤ total)
unfolding esp_part root_part
total-Fits total l = (
  (λ f. omega (arith, f.3)),
  λ h. (omega arith, omega arith, omega arith, omega arith, omega arith),
)

abbrev put_sector : ℕ → List ℕ → BlockDev → BlockDev
put_sector lba bytes dev = record dev { sectors = λ i. if i == lba then bytes else dev.sectors i }

-- A write that succeeds.
write_all-cons :
    (w : ℕ × List ℕ) (ws : List (ℕ × List ℕ)) (dev : BlockDev)
    → dev.unwritable w.0 ≡ false
    → write_all (w ∷ ws) dev ≡ write_all ws (put_sector w.0 w.1 dev)
unfolding write_all write_sector
write_all-cons w ws dev good = rw good refl

write_all-ok :
    (ws : List (ℕ × List ℕ)) (dev : BlockDev)
    → ((lba : ℕ) → dev.unwritable lba ≡ false)
    → (write_all ws dev).0 ≡ ok
unfolding write_all
write_all-ok [] dev good = refl
write_all-ok (w ∷ ws) dev good =
    ap (λ (r : Rc × BlockDev). r.0) (write_all-cons w ws dev (good w.0))
    ∙ write_all-ok ws (put_sector w.0 w.1 dev) good

-- The first sector of entries is not written over.
entries_stay :
    (dev : BlockDev)
    → 1049634 ≤ dev.sector_count
    → ((lba : ℕ) → dev.unwritable lba ≡ false)
    → (write_all (gpt_writes dev.sector_count) dev).1.sectors 2
      ≡ take 512 (parts_bytes dev.sector_count)
unfolding gpt_writes entry_writes
entries_stay dev l good =
    ap (λ (r : Rc × BlockDev). r.1.sectors 2)
      (write_all-cons _ _ dev (good 0) ∙ write_all-cons _ _ _ (good 2))
    ∙ write_all-Avoids _ 2
        (Avoids-append 2 (entry_writes 31 3 (drop 512 (parts_bytes total))) later
          (Avoids-entry_writes 2 31 3 (drop 512 (parts_bytes total)) (inr (omega arith)))
          later-Avoids)
        _
  where
    total : ℕ
    total = dev.sector_count

    last : List (ℕ × List ℕ)
    last = (total - 1, header_sector total (total - 1) 1 (total - 33)) ∷ []

    last-Avoids : Avoids 2 last
    last-Avoids = ((λ e. omega (arith, e, l)), tt)

    later : List (ℕ × List ℕ)
    later =
        (1, header_sector total 1 (total - 1) 2)
        ∷ (entry_writes 32 (total - 33) (parts_bytes total) ++ last)

    later-Avoids : Avoids 2 later
    later-Avoids = (
      λ e. omega (arith, e),
      Avoids-append 2 (entry_writes 32 (total - 33) (parts_bytes total)) last
          (Avoids-entry_writes 2 32 (total - 33) (parts_bytes total) (inr (omega arith)))
          last-Avoids,
    )

refused :
    (dev : BlockDev)
    → IsBlank dev
    → ltb dev.sector_count 1049634 ≡ true
    → gpt_init_single_disk dev ≡ (fail, dev)
unfolding gpt_init_single_disk
refused dev b small = rw (b.writes, b.reads, b.sector, small) refl

taken :
    (dev : BlockDev)
    → IsBlank dev
    → ltb dev.sector_count 1049634 ≡ false
    → gpt_init_single_disk dev ≡ write_all (gpt_writes dev.sector_count) dev
unfolding gpt_init_single_disk write_table read_sector is_partitioned write_all
taken dev b big = rw (b.writes, b.reads, b.sector, big, b.readable 0, b.no_table) refl

-- A working disk without a table is refused, and its third sector kept, if it has less than
-- 1049634 sectors. From there on it is accepted, and the third sector holds the entries of the two
-- partitions; but these lie in the usable sectors, one behind the other and neither of them empty, exactly
-- if the disk is accepted and has 1050658 sectors at least.
pub gpt_init_single_disk-Fits :
    (dev : BlockDev)
    → IsBlank dev
    → ((gpt_init_single_disk dev).0 ≡ (if ltb dev.sector_count 1049634 then fail else ok))
      × ((gpt_init_single_disk dev).1.sectors 2 ≡ (
          if ltb dev.sector_count 1049634
          then dev.sectors 2
          else take 512 (parts_bytes dev.sector_count)))
      × ((((gpt_init_single_disk dev).0 ≡ ok) × Fits dev.sector_count)
          ↔ (1050658 ≤ dev.sector_count))
gpt_init_single_disk-Fits dev b = elim (Bool-cases (ltb dev.sector_count 1049634)) [
  | inl small ↦
      rw (small, refused dev b small) (refl, refl, ((λ h. cc), (λ h. absurd (ground arith))))
  | inr big ↦
      rw (big, taken dev b big)
        (
          write_all-ok (gpt_writes dev.sector_count) dev b.writable,
          entries_stay dev (ground arith) b.writable,
          (
            (λ h. (total-Fits dev.sector_count (ground arith)).0 h.1),
            λ h. (
              write_all-ok (gpt_writes dev.sector_count) dev b.writable,
              (total-Fits dev.sector_count (ground arith)).1 h,
            ),
          ),
        )
]
