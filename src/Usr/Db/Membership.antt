-- ===== src/Usr/Db/Membership.antt =====
-- Supplementary groups: `usr_add_to_group` and `usr_remove_from_group` of kernel/usr/usr.c change one
-- bit in the mask of the user and one in the mask of the group.
use open_asd.Prelude.{
  ℕ, ◌<◌, ◌≡◌, refl, ap, ◌∙◌, ◌≢◌, inl, inr, true, ◌&&◌, Option, none, some, List, arith, ok, ◌==◌,
  lt→ltb, ==_iff, Bool-cases, if◌then◌else◌,
}
use open_asd.Prelude.Bits.{testbit}
use open_asd.Prelude.Find.{find}
use open_asd.Usr.Mask.{set_bit, clear_bit, testbit-set_bit, testbit-clear_bit}
use open_asd.Usr.Update.{update, option_map, find-update, find-update_ne}
use open_asd.Usr.Db.{
  User, Group, Db, usr_max_groups, usr_find_by_uid, grp_find_by_gid, add_member, remove_member,
  usr_add_to_group, usr_remove_from_group,
}

unfoldable pub bit_of {ℓ} : {A : Type ℓ} → (A → ℕ) → ℕ → Option A → ℕ
bit_of mask k none = 0
bit_of mask k (some a) = testbit (mask a) k

-- Bit `k` of the group mask of a user, 0 if there is no such user.
unfoldable pub user_bit : ℕ → ℕ → Db → ℕ
user_bit uid k db = bit_of (λ u. u.groups) k (usr_find_by_uid uid db)

-- Bit `k` of the member mask of a group, 0 if there is no such group.
unfoldable pub group_bit : ℕ → ℕ → Db → ℕ
group_bit gid k db = bit_of (λ g. g.member_mask) k (grp_find_by_gid gid db)

-- A table whose entries have a key and a mask, in which one bit of the first entry with a key is
-- changed to `c` by `f`.
module _ {ℓ} {A : Type ℓ} (key mask : A → ℕ) (put : ℕ → A → A)
    (key-put : (m : ℕ) (a : A) → key (put m a) ≡ key a)
    (mask-put : (m : ℕ) (a : A) → mask (put m a) ≡ m) (f : ℕ → ℕ → ℕ) (c : ℕ)
    (testbit-f : (m g k : ℕ)
      → g < 32
      → k < 32
      → testbit (f m g) k ≡ (if g == k then c else testbit m k)) where
  changed_bit :
      (xs : List A) (id other g k : ℕ)
      → g < 32
      → k < 32
      → find (λ x. key x == id) xs ≢ none
      → bit_of mask k
          (find (λ x. key x == other) (update (λ x. key x == id) (λ x. put (f (mask x) g) x) xs))
        ≡ (if (other == id) && (g == k) then c else bit_of mask k (find (λ x. key x == other) xs))
  unfolding bit_of
  changed_bit xs id other g k hg hk found = elim (Bool-cases (other == id)) [
    | inl same ↦
        rw ((==_iff _ _).0 same, self)
          (ap (bit_of mask k) (find-update (λ x. key x == id) (λ x. put (f (mask x) g) x) xs keeps)
            ∙ at_found (find (λ x. key x == id) xs) found)
    | inr differ ↦ rw differ (
        ap (bit_of mask k) (
          find-update_ne (λ x. key x == id) (λ x. put (f (mask x) g) x) (λ x. key x == other)
            (λ x. ap (λ n. n == other) (key-put _ x)) xs (λ x h. ground arith)))
  ]
    where
      self : (id == id) ≡ true
      self = ground arith

      keeps : (x : A) → (key (put (f (mask x) g) x) == id) ≡ (key x == id)
      keeps x = ap (λ n. n == id) (key-put _ x)

      at_found :
          (o : Option A)
          → o ≢ none
          → bit_of mask k (option_map (λ x. put (f (mask x) g) x) o)
            ≡ (if g == k then c else bit_of mask k o)
      at_found none h = absurd (h refl)
      at_found (some x) h = ap (λ m. testbit m k) (mask-put _ x) ∙ testbit-f (mask x) g k hg hk

-- `c` is the value that the call gives to the bits, 1 or 0.
unfoldable pub BitsChanged : ℕ → ℕ → ℕ → Db → Db → Type 0
BitsChanged c uid gid db changed =
    (v k : ℕ)
    → k < 32
    → (user_bit v k changed ≡ (if (v == uid) && (gid == k) then c else user_bit v k db))
      × (group_bit v k changed ≡ (if (v == gid) && (uid == k) then c else group_bit v k db))

with_groups : ℕ → User → User
with_groups gs u = record u { groups = gs }

with_mask : ℕ → Group → Group
with_mask m g = record g { member_mask = m }

module _ (uid gid : ℕ) (db : Db) (hu : uid < 32) (hg : gid < 32) (u : User) (g : Group) where
  -- For a user and a group that exist, with ids below 32, `usr_add_to_group` succeeds; afterwards the
  -- group is in the user's mask and the user is in the group's mask, and no other bit of any user or
  -- group has changed.
  pub usr_add_to_group_lem :
      usr_find_by_uid uid db ≡ some u
      → grp_find_by_gid gid db ≡ some g
      → ((usr_add_to_group uid gid db).0 ≡ ok)
        × BitsChanged 1 uid gid db (usr_add_to_group uid gid db).1
  unfolding usr_add_to_group BitsChanged add_member user_bit group_bit usr_find_by_uid
      grp_find_by_gid with_groups with_mask
  usr_add_to_group_lem eu eg =
      rw (eu, lt→ltb gid usr_max_groups hg, lt→ltb uid 32 hu)
        (
          refl,
          λ v k hk. (
            changed_bit (λ u. u.uid) (λ u. u.groups) with_groups (λ m u. refl) (λ m u. refl) set_bit
                1 testbit-set_bit db.users uid v gid k hg hk (λ n. cc),
            changed_bit (λ g. g.gid) (λ g. g.member_mask) with_mask (λ m g. refl) (λ m g. refl)
                set_bit 1 testbit-set_bit db.groups gid v uid k hu hk (λ n. cc),
          ),
        )

  -- For a user and a group that exist, with ids below 32, `usr_remove_from_group` succeeds; afterwards
  -- the group is not in the user's mask and the user is not in the group's mask, and no other bit of
  -- any user or group has changed.
  pub usr_remove_from_group_lem :
      usr_find_by_uid uid db ≡ some u
      → grp_find_by_gid gid db ≡ some g
      → ((usr_remove_from_group uid gid db).0 ≡ ok)
        × BitsChanged 0 uid gid db (usr_remove_from_group uid gid db).1
  unfolding usr_remove_from_group BitsChanged remove_member user_bit group_bit usr_find_by_uid
      grp_find_by_gid with_groups with_mask
  usr_remove_from_group_lem eu eg =
      rw (eu, lt→ltb gid usr_max_groups hg, lt→ltb uid 32 hu)
        (
          refl,
          λ v k hk. (
            changed_bit (λ u. u.uid) (λ u. u.groups) with_groups (λ m u. refl) (λ m u. refl)
                clear_bit 0 testbit-clear_bit db.users uid v gid k hg hk (λ n. cc),
            changed_bit (λ g. g.gid) (λ g. g.member_mask) with_mask (λ m g. refl) (λ m g. refl)
                clear_bit 0 testbit-clear_bit db.groups gid v uid k hu hk (λ n. cc),
          ),
        )
