-- ===== src/Usr/Perm/Grant.antt =====
-- What `usr_check_perm` decides, in terms of the three bits of the class that the process is in.
use open_asd.Prelude.{
  ℕ, zero, suc, ◌*◌, ◌/◌, ◌%◌, ◌^◌, ◌<◌, bit_and, ◌≡◌, refl, sym, ap, ◌∙◌, inl, inr, Bool, true,
  false, not, ◌&&◌, ◌||◌, arith, ok, fail, ltb, leb, ◌==◌, ltb→lt, Bool-cases, if◌then◌else◌,
}
use open_asd.Prelude.Bits.{bit_and_pow, bit_and-low, pow_pos}
use open_asd.Prelude.Range.{check_below, check_below-at}
use open_asd.Usr.Perm.{needed, in_groups, usr_check_perm, access_read, access_write, access_exec}

-- The class of a process for a file: where its three mode bits begin.
unfoldable pub class_shift : ℕ → ℕ → ℕ → ℕ → ℕ → ℕ
class_shift uid gid groups file_uid file_gid =
    if uid == file_uid
    then 6
    else if (gid == file_gid) || (ltb file_gid 32 && (groups / 2 ^ file_gid % 2 == 1))
    then 3
    else 0

-- Every access asked for (1 read, 2 write, 4 execute) is granted by its bit of `rwx` (4, 2, 1).
unfoldable pub granted : ℕ → ℕ → Bool
granted rwx flags =
    leb (flags % 2) (rwx / 4 % 2)
    && leb (flags / 2 % 2) (rwx / 2 % 2)
    && leb (flags / 4 % 2) (rwx % 2)

-- Over two small ranges, check every pair by evaluation.
same : Bool → Bool → Bool
same true b = b
same false b = not b

same-eq : (a b : Bool) → same a b ≡ true → a ≡ b
unfolding same
same-eq a b h = ground arith

-- The decision of the code for the class at shift 6, 3 or 0.
allows : ℕ → ℕ → ℕ → Bool
allows s mode flags =
    let need = needed flags (4 * 2 ^ s) (2 * 2 ^ s) (2 ^ s) in bit_and mode need == need

table : ℕ → Bool
unfolding check_below same allows granted needed
table s =
    check_below (λ m. check_below (λ f. same (allows s m f) (granted (m / 2 ^ s % 8) f)) 8) 512

table_holds : (table 6 ≡ true) × (table 3 ≡ true) × (table 0 ≡ true)
unfolding table
table_holds = (refl, refl, refl)

bounded : ℕ → Bool
unfolding check_below needed
bounded s = check_below (λ f. ltb (needed f (4 * 2 ^ s) (2 * 2 ^ s) (2 ^ s)) 512) 8

bounded_holds : (bounded 6 ≡ true) × (bounded 3 ≡ true) × (bounded 0 ≡ true)
unfolding bounded
bounded_holds = (refl, refl, refl)

needed-mod : (flags r w x : ℕ) → needed (flags % 8) r w x ≡ needed flags r w x
unfolding needed
needed-mod flags r w x = rw (
  bit_and-low 3 flags access_read (omega arith),
  bit_and-low 3 flags access_write (omega arith),
  bit_and-low 3 flags access_exec (omega arith),
)

granted-mod : (rwx flags : ℕ) → granted rwx (flags % 8) ≡ granted rwx flags
unfolding granted
granted-mod rwx flags = rw (bit_0, bit_1, bit_2)
  where
    bit_0 : flags % 8 % 2 ≡ flags % 2
    bit_0 = omega arith

    bit_1 : flags % 8 / 2 % 2 ≡ flags / 2 % 2
    bit_1 = omega arith

    bit_2 : flags % 8 / 4 % 2 ≡ flags / 4 % 2
    bit_2 = omega arith

module _ (s : ℕ) (checked : table s ≡ true) (small : bounded s ≡ true) where
  allows-small : (m f : ℕ) → m < 512 → f < 8 → allows s m f ≡ granted (m / 2 ^ s % 8) f
  unfolding table
  allows-small m f hm hf = same-eq (allows s m f) (granted (m / 2 ^ s % 8) f) (
      check_below-at (λ f. same (allows s m f) (granted (m / 2 ^ s % 8) f)) 8 hf
        (check_below-at (λ m. check_below (λ f. same (allows s m f) (granted (m / 2 ^ s % 8) f)) 8)
          512 hm checked))

  needed-lt : (flags : ℕ) → needed flags (4 * 2 ^ s) (2 * 2 ^ s) (2 ^ s) < 512
  unfolding bounded
  needed-lt flags = rw (← needed-mod flags (4 * 2 ^ s) (2 * 2 ^ s) (2 ^ s)) (
      ltb→lt _ _ (
        check_below-at (λ f. ltb (needed f (4 * 2 ^ s) (2 * 2 ^ s) (2 ^ s)) 512) {x = flags % 8} 8
          (omega arith) small))

  allows-granted :
      (mode flags : ℕ)
      → mode % 512 / 2 ^ s % 8 ≡ mode / 2 ^ s % 8
      → allows s mode flags ≡ granted (mode / 2 ^ s % 8) flags
  unfolding allows
  allows-granted mode flags low =
      sym (
        ap (λ t. t == needed flags (4 * 2 ^ s) (2 * 2 ^ s) (2 ^ s))
          (bit_and-low 9 mode (needed flags (4 * 2 ^ s) (2 * 2 ^ s) (2 ^ s)) (needed-lt flags)))
      ∙ ap (λ t. bit_and (mode % 512) t == t)
          (sym (needed-mod flags (4 * 2 ^ s) (2 * 2 ^ s) (2 ^ s)))
      ∙ allows-small (mode % 512) (flags % 8) (omega arith) (omega arith)
      ∙ granted-mod (mode % 512 / 2 ^ s % 8) flags
      ∙ ap (λ t. granted t flags) low

bit_test : (q p : ℕ) → q < 2 → 0 < p → not (q * p == 0) ≡ (q == 1)
bit_test zero p h pos = ground arith
bit_test (suc zero) p h pos = ground arith
bit_test (suc (suc q)) p h pos = absurd (omega arith)

in_groups-eq : (groups gid : ℕ) → in_groups groups gid ≡ (ltb gid 32 && (groups / 2 ^ gid % 2 == 1))
unfolding in_groups
in_groups-eq groups gid =
    ap (λ b. ltb gid 32 && b)
      (ap (λ t. not (t == 0)) (bit_and_pow gid groups)
        ∙ bit_test (groups / 2 ^ gid % 2) (2 ^ gid) (omega arith) (pow_pos gid))

-- Root may do everything. Any other process is in one class for the file, as owner, by its group
-- or a supplementary one, or as other, and access is allowed exactly if each kind of access asked
-- for has its bit in the three mode bits of that class.
pub usr_check_perm_lem :
    (uid gid groups file_uid file_gid mode flags : ℕ)
    → usr_check_perm uid gid groups file_uid file_gid mode flags ≡ (
        if uid == 0
        then ok
        else if granted (mode / 2 ^ class_shift uid gid groups file_uid file_gid % 8) flags
        then ok
        else fail)
unfolding usr_check_perm class_shift allows
usr_check_perm_lem uid gid groups file_uid file_gid mode flags = elim (Bool-cases (uid == 0)) [
  | inl root ↦ rw root refl
  | inr user ↦ elim (Bool-cases (uid == file_uid)) [
    | inl own ↦
        rw (user, own)
          (answer (allows-granted 6 table_holds.0 bounded_holds.0 mode flags (omega arith)))
    | inr other ↦
        elim (Bool-cases
          ((gid == file_gid) || (ltb file_gid 32 && (groups / 2 ^ file_gid % 2 == 1)))) [
            | inl member ↦
                rw (user, other, in_groups-eq groups file_gid, member)
                  (answer (allows-granted 3 table_holds.1 bounded_holds.1 mode flags (omega arith)))
            | inr stranger ↦
                rw (user, other, in_groups-eq groups file_gid, stranger)
                  (answer (allows-granted 0 table_holds.2 bounded_holds.2 mode flags (omega arith)))
          ]
  ]
]
  where
    answer : {a b : Bool} → a ≡ b → (if a then ok else fail) ≡ (if b then ok else fail)
    answer e = ap (λ c. if c then ok else fail) e
