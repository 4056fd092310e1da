-- ===== src/Vfs/Mount/Serves.antt =====
-- Which backends `find_backend` of kernel/vfs/vfs.c takes for a path, and the path that they are given,
-- in terms of the texts.
use mathlib.Core.List.{append-nil}
use open_asd.Prelude.{
  ℕ, zero, suc, ◌≡◌, refl, sym, ap, ◌∙◌, ◌≢◌, ◌⊎◌, inl, inr, Bool, true, false, ◌&&◌, ◌||◌, List,
  [], ◌∷◌, ◌++◌, arith, ◌==◌, ==_iff, str_eq, str_eq_refl, eq_of_str_eq, Bool-cases, length, take,
  drop, take-append-drop, take_all, if◌then◌else◌,
}
use open_asd.Vfs.Path.{slash}
use open_asd.Vfs.Backend.{Backend}
use open_asd.Vfs.Mount.{byte_at, is_root, serves, rel_path}

-- The bytes of a terminated string.
abbrev pub NoZero : List ℕ → Type 0
NoZero [] = Unit {0}
NoZero (c ∷ cs) = (c ≢ 0) × NoZero cs

-- A backend at "/" is given every path that begins with a slash, as it is. Another one is given the paths
-- that go on with nothing or with a slash behind its mount point, and of these what goes on, or "/".
abbrev pub Gives : List ℕ → List ℕ → List ℕ → Type 0
Gives path mount rel =
    ((mount ≡ slash ∷ []) × ((r : List ℕ) × (path ≡ slash ∷ r)) × (rel ≡ path))
    ⊎ ((mount ≢ slash ∷ [])
        × (((path ≡ mount) × (rel ≡ slash ∷ []))
            ⊎ ((r : List ℕ) × (path ≡ mount ++ (slash ∷ r)) × (rel ≡ slash ∷ r))))

and_both : {a b : Bool} → (a && b) ≡ true → (a ≡ true) × (b ≡ true)
and_both h = ground arith

is_root-eq : (m : List ℕ) → is_root m ≡ true → m ≡ slash ∷ []
is_root-eq [] h = cc
is_root-eq (c ∷ []) h = ap (λ x. x ∷ []) (ground arith)
is_root-eq (c ∷ d ∷ m) h = ground arith

not_root : (m : List ℕ) → is_root m ≡ false → m ≢ slash ∷ []
not_root m h e = cc

root-is_root : (m : List ℕ) → m ≡ slash ∷ [] → is_root m ≡ true
root-is_root m e = rw e refl

other-is_root : (m : List ℕ) → m ≢ slash ∷ [] → is_root m ≡ false
other-is_root m h = elim (Bool-cases (is_root m)) [
  | inl root ↦ absurd (h (is_root-eq m root))
  | inr other ↦ other
]

byte_at-append : (m rest : List ℕ) → byte_at (m ++ rest) (length m) ≡ byte_at rest 0
byte_at-append [] rest = refl
byte_at-append (c ∷ m) rest = byte_at-append m rest

drop-append : (m rest : List ℕ) → drop (length m) (m ++ rest) ≡ rest
drop-append [] rest = refl
drop-append (c ∷ m) rest = drop-append m rest

take-append : (m rest : List ℕ) → take (length m) (m ++ rest) ≡ m
take-append [] rest = refl
take-append (c ∷ m) rest = ap (λ t. c ∷ t) (take-append m rest)

NoZero-drop : (n : ℕ) (p : List ℕ) → NoZero p → NoZero (drop n p)
NoZero-drop zero p h = h
NoZero-drop (suc n) [] h = tt
NoZero-drop (suc n) (c ∷ p) h = NoZero-drop n p h.1

starts_slash : (p : List ℕ) → (byte_at p 0 == slash) ≡ true → (r : List ℕ) × (p ≡ slash ∷ r)
starts_slash [] h = absurd (ground arith)
starts_slash (c ∷ p) h = (p, ap (λ x. x ∷ p) ((==_iff c slash).0 h))

-- What follows a mount point.
ends_or_slash :
    (rest : List ℕ)
    → NoZero rest
    → ((byte_at rest 0 == 0) || (byte_at rest 0 == slash)) ≡ true
    → (rest ≡ []) ⊎ ((r : List ℕ) × (rest ≡ slash ∷ r))
ends_or_slash [] z h = inl refl
ends_or_slash (c ∷ rest) z h = elim (Bool-cases (c == slash)) [
  | inl this ↦ inr (rest, ap (λ x. x ∷ rest) ((==_iff c slash).0 this))
  | inr other ↦ absurd (z.0 (ground arith))
]

module _ {W C : Type 0} where
  -- The paths that a backend in use is given.
  abbrev pub Serves : List ℕ → Backend W C → Type 0
  Serves path be = (be.id ≢ 0) × ((rel : List ℕ) × Gives path be.mount_pt rel)

  -- The tests of the loop, for a backend that is not at "/".
  below :
      (path : List ℕ) (be : Backend W C)
      → (be.id == 0) ≡ false
      → is_root be.mount_pt ≡ false
      → serves path be ≡ (
          str_eq (take (length be.mount_pt) path) be.mount_pt
          && ((byte_at path (length be.mount_pt) == 0)
              || (byte_at path (length be.mount_pt) == slash)))
  unfolding serves
  below path be used other = rw (used, other) refl

  at_root :
      (path : List ℕ) (be : Backend W C)
      → (be.id == 0) ≡ false
      → is_root be.mount_pt ≡ true
      → serves path be ≡ (byte_at path 0 == slash)
  unfolding serves
  at_root path be used root = rw (used, root) refl

  rel_path-append :
      (rest : List ℕ) (be : Backend W C)
      → is_root be.mount_pt ≡ false
      → rel_path (be.mount_pt ++ rest) be ≡ (if str_eq rest [] then slash ∷ [] else rest)
  unfolding rel_path
  rel_path-append rest be other = rw (other, drop-append be.mount_pt rest) refl

  -- A path that the loop takes for a backend, and what it is given.
  pub serves-Gives :
      (path : List ℕ) (be : Backend W C)
      → NoZero path
      → serves path be ≡ true
      → (be.id ≢ 0) × Gives path be.mount_pt (rel_path path be)
  unfolding serves rel_path
  serves-Gives path be z s = elim (Bool-cases (be.id == 0)) [
    | inl free ↦ absurd (ground arith)
    | inr used ↦ (
      λ e. ground arith,
      elim (Bool-cases (is_root be.mount_pt)) [
        | inl root ↦ inl (
          is_root-eq be.mount_pt root,
          starts_slash path (sym (at_root path be used root) ∙ s),
          rw root refl,
        )
        | inr other ↦ inr (not_root be.mount_pt other, rest_of used other)
      ],
    )
  ]
    where
      rest_of :
          (be.id == 0) ≡ false
          → is_root be.mount_pt ≡ false
          → ((path ≡ be.mount_pt) × (rel_path path be ≡ slash ∷ []))
            ⊎ ((r : List ℕ) × (path ≡ be.mount_pt ++ (slash ∷ r)) × (rel_path path be ≡ slash ∷ r))
      rest_of used other = elim (ends_or_slash rest (NoZero-drop (length m) path z) next) [
        | inl ends ↦ inl (split ∙ ap (λ t. m ++ t) ends ∙ append-nil m, given ∙ ap shown ends)
        | inr (r, goes_on) ↦ inr (r, split ∙ ap (λ t. m ++ t) goes_on, given ∙ ap shown goes_on)
      ]
        where
          m : List ℕ
          m = be.mount_pt

          rest : List ℕ
          rest = drop (length m) path

          shown : List ℕ → List ℕ
          shown t = if str_eq t [] then slash ∷ [] else t

          both :
              (str_eq (take (length m) path) m
                && ((byte_at path (length m) == 0) || (byte_at path (length m) == slash)))
              ≡ true
          both = sym (below path be used other) ∙ s

          split : path ≡ m ++ rest
          split =
              sym (take-append-drop (length m) path)
              ∙ ap (λ t. t ++ rest) (eq_of_str_eq _ _ (and_both both).0)

          next : ((byte_at rest 0 == 0) || (byte_at rest 0 == slash)) ≡ true
          next =
              ap (λ b. (b == 0) || (b == slash))
                (sym (ap (λ p. byte_at p (length m)) split ∙ byte_at-append m rest))
              ∙ (and_both {a = str_eq (take (length m) path) m} both).1

          given : rel_path path be ≡ shown rest
          given = ap (λ p. rel_path p be) split ∙ rel_path-append rest be other

  -- And every path that a backend is to be given is taken.
  pub Serves-serves : (path : List ℕ) (be : Backend W C) → Serves path be → serves path be ≡ true
  Serves-serves path be (used, (rel, inl (root, (r, e), same))) =
      at_root path be (used_test used) (root-is_root be.mount_pt root) ∙ rw e refl
    where
      used_test : be.id ≢ 0 → (be.id == 0) ≡ false
      used_test used = ground arith
  Serves-serves path be (used, (rel, inr (other, rest))) =
      below path be (used_test used) (other-is_root be.mount_pt other) ∙ follows rest
    where
      used_test : be.id ≢ 0 → (be.id == 0) ≡ false
      used_test used = ground arith

      m : List ℕ
      m = be.mount_pt

      follows :
          ((path ≡ m) × (rel ≡ slash ∷ []))
            ⊎ ((r : List ℕ) × (path ≡ m ++ (slash ∷ r)) × (rel ≡ slash ∷ r))
          → (str_eq (take (length m) path) m
              && ((byte_at path (length m) == 0) || (byte_at path (length m) == slash)))
            ≡ true
      follows (inl (e, same)) =
          rw
            (
              e,
              take_all (length m) m (omega arith),
              ap (λ p. byte_at p (length m)) (sym (append-nil m)) ∙ byte_at-append m [],
              str_eq_refl m,
            )
            refl
      follows (inr (r, e, same)) =
          rw (e, take-append m (slash ∷ r), byte_at-append m (slash ∷ r), str_eq_refl m) refl
