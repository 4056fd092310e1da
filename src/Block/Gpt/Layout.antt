-- ===== src/Block/Gpt/Layout.antt =====
-- Where the partition table of kernel/block/gpt.c puts things.
use open_asd.Prelude.{
  ℕ, zero, suc, ◌+◌, ◌-◌, ◌≤◌, ◌<◌, ◌≡◌, refl, ◌∙◌, ◌≢◌, ◌⊎◌, inl, inr, Bool, false, not, ◌||◌,
  Option, none, some, List, [], ◌∷◌, ◌++◌, arith, Rc, ltb, ◌==◌, Bool-cases, drop,
}
use open_asd.Block.Gpt.{
  BlockDev, esp_size_sectors, entry_writes, gpt_writes, read_sector, write_sector, go_on, write_all,
  is_partitioned, write_table, gpt_init_single_disk,
}

-- No write to a sector.
abbrev pub Avoids : ℕ → List (ℕ × List ℕ) → Type 0
Avoids lba [] = Unit {0}
Avoids lba (w ∷ ws) = (w.0 ≢ lba) × Avoids lba ws

pub Avoids-append :
    (lba : ℕ) (xs ys : List (ℕ × List ℕ)) → Avoids lba xs → Avoids lba ys → Avoids lba (xs ++ ys)
Avoids-append lba [] ys a b = b
Avoids-append lba (x ∷ xs) ys a b = (a.0, Avoids-append lba xs ys a.1 b)

pub Avoids-entry_writes :
    (lba n first : ℕ) (bytes : List ℕ)
    → (first + n ≤ lba) ⊎ (lba < first)
    → Avoids lba (entry_writes n first bytes)
unfolding entry_writes
Avoids-entry_writes lba zero first bytes l = tt
Avoids-entry_writes lba (suc n) first bytes (inl l) = (
  λ e. omega (arith, e, l),
  Avoids-entry_writes lba n (first + 1) (drop 512 bytes) (inl (omega (arith, l))),
)
Avoids-entry_writes lba (suc n) first bytes (inr l) = (
  λ e. omega (arith, e, l),
  Avoids-entry_writes lba n (first + 1) (drop 512 bytes) (inr (omega (arith, l))),
)

gpt_writes-Avoids : (total lba : ℕ) → 68 ≤ total → total ≤ lba → Avoids lba (gpt_writes total)
unfolding gpt_writes
gpt_writes-Avoids total lba l m = (
  λ e. omega (arith, e),
  Avoids-append lba _ _ (Avoids-entry_writes lba 32 2 _ (inl (omega arith))) (
    λ e. omega (arith, e),
    Avoids-append lba _ _ (Avoids-entry_writes lba 32 (total - 33) _ (inl (omega arith)))
        ((λ e. omega (arith, e)), tt),
  ),
)

abbrev sectors_of : BlockDev → Option BlockDev → ℕ → List ℕ
sectors_of d none = d.sectors
sectors_of d (some dev) = dev.sectors

-- Whether the write succeeds or not.
write_sector-beyond :
    (at lba : ℕ) (bytes : List ℕ) (dev : BlockDev)
    → at ≢ lba
    → sectors_of dev (write_sector at bytes dev) lba ≡ dev.sectors lba
unfolding write_sector
write_sector-beyond at lba bytes dev l = elim (Bool-cases (dev.unwritable at)) [
  | inl bad ↦ rw bad refl
  | inr good ↦ rw (good, other) refl
]
  where
    other : (lba == at) ≡ false
    other = ground (arith, l)

go_on-beyond :
    (o : Option BlockDev) (dev : BlockDev) (rest : BlockDev → Rc × BlockDev) (lba : ℕ)
    → ((d : BlockDev) → (rest d).1.sectors lba ≡ d.sectors lba)
    → sectors_of dev o lba ≡ dev.sectors lba
    → (go_on o dev rest).1.sectors lba ≡ dev.sectors lba
go_on-beyond none dev rest lba keeps e = refl
go_on-beyond (some d) dev rest lba keeps e = keeps d ∙ e

-- The sector keeps what it holds.
pub write_all-Avoids :
    (ws : List (ℕ × List ℕ)) (lba : ℕ)
    → Avoids lba ws
    → (dev : BlockDev) → (write_all ws dev).1.sectors lba ≡ dev.sectors lba
unfolding write_all
write_all-Avoids [] lba other dev = refl
write_all-Avoids (w ∷ ws) lba other dev =
    go_on-beyond (write_sector w.0 w.1 dev) dev (write_all ws) lba (write_all-Avoids ws lba other.1)
      (write_sector-beyond w.0 lba w.1 dev other.0)

write_table-beyond :
    (o : Option (List ℕ)) (dev : BlockDev) (lba : ℕ)
    → 68 ≤ dev.sector_count
    → dev.sector_count ≤ lba
    → (write_table o dev).1.sectors lba ≡ dev.sectors lba
unfolding write_table
write_table-beyond none dev lba big l = refl
write_table-beyond (some sec) dev lba big l = elim (Bool-cases (is_partitioned sec dev)) [
  | inl done ↦ rw done refl
  | inr new ↦ rw new (
      write_all-Avoids (gpt_writes dev.sector_count) lba
        (gpt_writes-Avoids dev.sector_count lba big l) dev)
]

abbrev unusable : BlockDev → Bool
unusable dev = not dev.can_write || not dev.can_read || not (dev.sector_size == 512)

-- `gpt_init_single_disk` writes to no sector behind the end of the disk, whichever write fails.
pub gpt_init_single_disk-beyond :
    (dev : BlockDev) (lba : ℕ)
    → dev.sector_count ≤ lba
    → (gpt_init_single_disk dev).1.sectors lba ≡ dev.sectors lba
unfolding gpt_init_single_disk
gpt_init_single_disk-beyond dev lba l = elim (Bool-cases (unusable dev)) [
  | inl odd ↦ rw odd refl
  | inr even ↦ elim (Bool-cases (ltb dev.sector_count (34 + esp_size_sectors + 1024))) [
    | inl small ↦ rw (even, small) refl
    | inr big ↦ rw (even, big) (write_table-beyond (read_sector 0 dev) dev lba (large big) l)
  ]
]
  where
    large : ltb dev.sector_count (34 + esp_size_sectors + 1024) ≡ false → 68 ≤ dev.sector_count
    large h = ground arith
