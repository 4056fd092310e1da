-- ===== src/Usr/Db/Valid.antt =====
-- The tables of users and groups stay within their arrays and without duplicates: what every
-- operation of kernel/usr/usr.c keeps.
use open_asd.Prelude.{
  ℕ, ◌≤◌, ◌<◌, ◌≡◌, refl, sym, ap, ◌∙◌, inl, inr, Bool, true, false, Option, none, some, List, [],
  ◌∷◌, ◌++◌, arith, ◌==◌, ==_iff, str_eq, eq_of_str_eq, Bool-cases, length, length-append,
  if◌then◌else◌,
}
use open_asd.Prelude.Find.{find, count}
use open_asd.Usr.Update.{update, length-update, count-update, count-snoc_new, count-snoc_other}
use open_asd.Usr.Db.{
  User, Group, Db, usr_max_users, usr_max_groups, is_some, add_member, remove_member,
}

unfoldable pub uid_is : ℕ → User → Bool
uid_is k u = u.uid == k

unfoldable pub user_named : List ℕ → User → Bool
user_named n u = str_eq u.name n

unfoldable pub gid_is : ℕ → Group → Bool
gid_is k g = g.gid == k

unfoldable pub group_named : List ℕ → Group → Bool
group_named n g = str_eq g.name n

pub record UsersValid (users : List User) : Type 0 where
  pub users_bound : length users ≤ usr_max_users
  pub uid_once : (k : ℕ) → count (uid_is k) users ≤ 1
  pub name_once : (n : List ℕ) → count (user_named n) users ≤ 1

pub record GroupsValid (groups : List Group) : Type 0 where
  pub groups_bound : length groups ≤ usr_max_groups
  pub gid_once : (k : ℕ) → count (gid_is k) groups ≤ 1
  pub group_name_once : (n : List ℕ) → count (group_named n) groups ≤ 1

-- At most 64 users, no two with one id or one name, and at most 32 groups, likewise.
unfoldable pub IsValid : Db → Type 0
IsValid db = UsersValid db.users × GroupsValid db.groups

-- An entry behind a table that has none with its key.
module _ {ℓ} {A : Type ℓ} (p : ℕ → A → Bool) (key : A → ℕ)
    (is_key : (k : ℕ) (x : A) → p k x ≡ (key x == k)) where
  once-snoc :
      (xs : List A) (a : A)
      → ((k : ℕ) → count (p k) xs ≤ 1)
      → find (p (key a)) xs ≡ none
      → (k : ℕ) → count (p k) (xs ++ (a ∷ [])) ≤ 1
  once-snoc xs a once new k = elim (Bool-cases (key a == k)) [
    | inl same ↦
        count-snoc_new (p k) xs a (ap (λ j. find (p j) xs) (sym ((==_iff _ _).0 same)) ∙ new)
    | inr differ ↦ omega (arith, count-snoc_other (p k) xs a (is_key k a ∙ differ), once k)
  ]

module _ {ℓ} {A : Type ℓ} (p : List ℕ → A → Bool) (key : A → List ℕ)
    (is_key : (k : List ℕ) (x : A) → p k x ≡ str_eq (key x) k) where
  once-snoc_name :
      (xs : List A) (a : A)
      → ((k : List ℕ) → count (p k) xs ≤ 1)
      → find (p (key a)) xs ≡ none
      → (k : List ℕ) → count (p k) (xs ++ (a ∷ [])) ≤ 1
  once-snoc_name xs a once new k = elim (Bool-cases (str_eq (key a) k)) [
    | inl same ↦
        count-snoc_new (p k) xs a (ap (λ j. find (p j) xs) (sym (eq_of_str_eq _ _ same)) ∙ new)
    | inr differ ↦ omega (arith, count-snoc_other (p k) xs a (is_key k a ∙ differ), once k)
  ]

pub is_some-none {ℓ} : {A : Type ℓ} (o : Option A) → is_some o ≡ false → o ≡ none
is_some-none none e = refl
is_some-none (some a) e = cc

pub update-GroupsValid :
    (p : Group → Bool) (f : Group → Group) (gs : List Group)
    → ((g : Group) → ((f g).gid ≡ g.gid) × ((f g).name ≡ g.name))
    → GroupsValid gs
    → GroupsValid (update p f gs)
unfolding gid_is group_named
update-GroupsValid p f gs keeps v = record {
  groups_bound = omega (arith, length-update p f gs, v.groups_bound);
  gid_once = λ k.
      omega
        (arith, count-update p f (gid_is k) (λ g. ap (λ t. t == k) (keeps g).0) gs, v.gid_once k);
  group_name_once = λ n. omega (
    arith,
    count-update p f (group_named n) (λ g. ap (λ t. str_eq t n) (keeps g).1) gs,
    v.group_name_once n,
  );
}

pub update-UsersValid :
    (p : User → Bool) (f : User → User) (us : List User)
    → ((u : User) → ((f u).uid ≡ u.uid) × ((f u).name ≡ u.name))
    → UsersValid us
    → UsersValid (update p f us)
unfolding uid_is user_named
update-UsersValid p f us keeps v = record {
  users_bound = omega (arith, length-update p f us, v.users_bound);
  uid_once = λ k.
      omega
        (arith, count-update p f (uid_is k) (λ u. ap (λ t. t == k) (keeps u).0) us, v.uid_once k);
  name_once = λ n. omega (
    arith,
    count-update p f (user_named n) (λ u. ap (λ t. str_eq t n) (keeps u).1) us,
    v.name_once n,
  );
}

pub add_member-GroupsValid :
    (uid gid : ℕ) (gs : List Group) → GroupsValid gs → GroupsValid (add_member uid gid gs)
unfolding add_member
add_member-GroupsValid uid gid gs v = update-GroupsValid _ _ gs (λ g. (refl, refl)) v

pub remove_member-GroupsValid :
    (uid gid : ℕ) (gs : List Group) → GroupsValid gs → GroupsValid (remove_member uid gid gs)
unfolding remove_member
remove_member-GroupsValid uid gid gs v = update-GroupsValid _ _ gs (λ g. (refl, refl)) v

pub if_both {ℓ κ} :
    {A : Type ℓ} (P : A → Type κ) (b : Bool) {x y : A} → P x → P y → P (if b then x else y)
if_both P true px py = px
if_both P false px py = py

pub GroupsValid-snoc :
    (gs : List Group) (g : Group)
    → GroupsValid gs
    → length gs < usr_max_groups
    → find (gid_is g.gid) gs ≡ none
    → find (group_named g.name) gs ≡ none
    → GroupsValid (gs ++ (g ∷ []))
unfolding gid_is group_named
GroupsValid-snoc gs g v room new_gid new_name = record {
  groups_bound = omega (arith, length-append gs (g ∷ []));
  gid_once = once-snoc gid_is (λ g. g.gid) (λ k x. refl) gs g v.gid_once new_gid;
  group_name_once =
      once-snoc_name group_named (λ g. g.name) (λ k x. refl) gs g v.group_name_once new_name;
}

pub UsersValid-snoc :
    (us : List User) (u : User)
    → UsersValid us
    → length us < usr_max_users
    → find (uid_is u.uid) us ≡ none
    → find (user_named u.name) us ≡ none
    → UsersValid (us ++ (u ∷ []))
unfolding uid_is user_named
UsersValid-snoc us u v room new_uid new_name = record {
  users_bound = omega (arith, length-append us (u ∷ []));
  uid_once = once-snoc uid_is (λ u. u.uid) (λ k x. refl) us u v.uid_once new_uid;
  name_once = once-snoc_name user_named (λ u. u.name) (λ k x. refl) us u v.name_once new_name;
}
