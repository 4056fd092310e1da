-- ===== src/Vfs/Mount/Longest.antt =====
-- `find_backend` takes the longest mount point.
use open_asd.Prelude.{
  ℕ, zero, suc, ◌≤◌, ◌<◌, ◌≡◌, refl, sym, ap, ◌∙◌, ◌≢◌, ◌⊎◌, inl, inr, Bool, true, false, ◌&&◌,
  Option, none, some, List, [], ◌∷◌, arith, ltb, Bool-cases, length, get_elem?,
}
use mathlib.Core.Path.{subst}
use open_asd.Vfs.Mount.Serves.{NoZero, Gives, Serves, serves-Gives, Serves-serves}
use open_asd.Vfs.Backend.{Backend}
use open_asd.Vfs.Mount.{serves, best_of, rel_path, with_rel, find_backend}

length_zero : (xs : List ℕ) → length xs ≤ 0 → xs ≡ []
length_zero [] h = refl
length_zero (x ∷ xs) h = absurd (omega arith)

module _ {W C : Type 0} where
  best_length : Option (Backend W C) → ℕ
  best_length none = 0
  best_length (some be) = length be.mount_pt

  best_of-keeps :
      (path : List ℕ) (bs : List (Backend W C)) (best : Option (Backend W C)) (n : ℕ)
      → n ≡ best_length best
      → n ≤ best_length (best_of path bs best n)
  unfolding best_of best_length
  best_of-keeps path [] best n e = omega arith
  best_of-keeps path (be ∷ bs) best n e =
      elim (Bool-cases (serves path be && ltb n (length be.mount_pt))) [
        | inl better ↦ rw better (
            omega (arith, longer better, best_of-keeps path bs (some be) (length be.mount_pt) refl))
        | inr same ↦ rw same (best_of-keeps path bs best n e)
      ]
    where
      longer : (serves path be && ltb n (length be.mount_pt)) ≡ true → n < length be.mount_pt
      longer h = ground arith

  best_of-le :
      (path : List ℕ) (bs : List (Backend W C)) (best : Option (Backend W C)) (n : ℕ)
      → n ≡ best_length best
      → (i : ℕ) (other : Backend W C) → get_elem? bs i ≡ some other
      → serves path other ≡ true
      → length other.mount_pt ≤ best_length (best_of path bs best n)
  unfolding best_of best_length
  best_of-le path [] best n e i other at h = cc
  best_of-le path (be ∷ bs) best n e zero other at h =
      elim (Bool-cases (serves path be && ltb n (length be.mount_pt))) [
        | inl better ↦ rw better (
            omega
              (arith, ap best_length at, best_of-keeps path bs (some be) (length be.mount_pt) refl))
        | inr same ↦
            rw same (omega (arith, ap best_length at, short same, best_of-keeps path bs best n e))
      ]
    where
      served : Option (Backend W C) → Bool
      served none = false
      served (some b) = serves path b

      short : (serves path be && ltb n (length be.mount_pt)) ≡ false → length be.mount_pt ≤ n
      short same = ground (arith, ap served at)
  best_of-le path (be ∷ bs) best n e (suc i) other at h =
      elim (Bool-cases (serves path be && ltb n (length be.mount_pt))) [
        | inl better ↦
            rw better (best_of-le path bs (some be) (length be.mount_pt) refl i other at h)
        | inr same ↦ rw same (best_of-le path bs best n e i other at h)
      ]

  abbrev Listed : List ℕ → List (Backend W C) → Backend W C → Type 0
  Listed path bs b = (i : ℕ) × (get_elem? bs i ≡ some b) × (serves path b ≡ true)

  later :
      (path : List ℕ) (be : Backend W C) (bs : List (Backend W C)) (b : Backend W C)
      → Listed path bs b
      → Listed path (be ∷ bs) b
  later path be bs b l = (suc l.0, l.1, l.2)

  best_of-Listed :
      (path : List ℕ) (bs : List (Backend W C)) (best : Option (Backend W C)) (n : ℕ)
      (b : Backend W C)
      → best_of path bs best n ≡ some b
      → (best ≡ some b) ⊎ Listed path bs b
  unfolding best_of
  best_of-Listed path [] best n b e = inl e
  best_of-Listed path (be ∷ bs) best n b e =
      elim (Bool-cases (serves path be && ltb n (length be.mount_pt))) [
        | inl better ↦
            elim (best_of-Listed path bs (some be) (length be.mount_pt) b (taken better)) [
              | inl this ↦ inr (zero, this, serves_this better this)
              | inr l ↦ inr (later path be bs b l)
            ]
        | inr same ↦ elim (best_of-Listed path bs best n b (passed same)) [
          | inl this ↦ inl this
          | inr l ↦ inr (later path be bs b l)
        ]
      ]
    where
      taken :
          (serves path be && ltb n (length be.mount_pt)) ≡ true
          → best_of path bs (some be) (length be.mount_pt) ≡ some b
      taken better = rw better at e

      passed :
          (serves path be && ltb n (length be.mount_pt)) ≡ false → best_of path bs best n ≡ some b
      passed same = rw same at e

      served : Option (Backend W C) → Bool
      served none = false
      served (some b) = serves path b

      serves_this :
          (serves path be && ltb n (length be.mount_pt)) ≡ true
          → some be ≡ some b
          → serves path b ≡ true
      serves_this better this = sym (ap served this) ∙ and_left _ _ better
        where
          and_left : (a b : Bool) → (a && b) ≡ true → a ≡ true
          and_left a b h = ground arith

  -- The same in terms of the tests of the loop.
  find_backend-best :
      (path : List ℕ) (bs : List (Backend W C))
      → ((be : Backend W C) (rel : List ℕ)
          → find_backend path bs ≡ some (be, rel)
          → Listed path bs be
            × (rel ≡ rel_path path be)
            × ((i : ℕ) (other : Backend W C)
                → get_elem? bs i ≡ some other
                → serves path other ≡ true
                → length other.mount_pt ≤ length be.mount_pt))
        × (find_backend path bs ≡ none
            → (i : ℕ) (other : Backend W C) → get_elem? bs i ≡ some other
            → serves path other ≡ true
            → other.mount_pt ≡ [])
  unfolding find_backend with_rel best_length
  find_backend-best path bs =
      (found (best_of path bs none 0) refl, missing (best_of path bs none 0) refl)
    where
      from_start : (be : Backend W C) → best_of path bs none 0 ≡ some be → Listed path bs be
      from_start be e = elim (best_of-Listed path bs none 0 be e) [ inl n ↦ cc | inr l ↦ l ]

      found :
          (o : Option (Backend W C))
          → best_of path bs none 0 ≡ o
          → (be : Backend W C) (rel : List ℕ) → with_rel path o ≡ some (be, rel)
          → Listed path bs be
            × (rel ≡ rel_path path be)
            × ((i : ℕ) (other : Backend W C)
                → get_elem? bs i ≡ some other
                → serves path other ≡ true
                → length other.mount_pt ≤ length be.mount_pt)
      found none e be rel h = cc
      found (some b) e be rel h = (
        from_start be this,
        sym second ∙ ap rel_of first,
        λ i other at s.
            omega (arith, best_of-le path bs none 0 refl i other at s, ap best_length this),
      )
        where
          backend_of : Option (Backend W C × List ℕ) → Option (Backend W C)
          backend_of none = none
          backend_of (some p) = some p.0

          rel_of : Option (Backend W C) → List ℕ
          rel_of none = []
          rel_of (some be) = rel_path path be

          path_of : Option (Backend W C × List ℕ) → List ℕ
          path_of none = []
          path_of (some p) = p.1

          first : some b ≡ some be
          first = ap backend_of h

          second : rel_path path b ≡ rel
          second = ap path_of h

          this : best_of path bs none 0 ≡ some be
          this = e ∙ first

      missing :
          (o : Option (Backend W C))
          → best_of path bs none 0 ≡ o
          → with_rel path o ≡ none
          → (i : ℕ) (other : Backend W C) → get_elem? bs i ≡ some other
          → serves path other ≡ true
          → other.mount_pt ≡ []
      missing none e h i other at s =
          length_zero other.mount_pt
            (omega (arith, best_of-le path bs none 0 refl i other at s, ap best_length e))
      missing (some b) e h i other at s = cc

  -- For a path whose bytes are not 0: the backend that `find_backend` returns is in the table and in use,
  -- its mount point is "/" and the path begins with a slash, or the path is its mount point, or goes
  -- on with a slash behind it; the path returned is the whole path at "/", and otherwise what goes on
  -- behind the mount point, or "/". Every backend in use that serves the path in this sense has a
  -- mount point at most as long; and if none is returned, every such backend has an empty one.
  pub find_backend_lem :
      (path : List ℕ) (bs : List (Backend W C))
      → NoZero path
      → ((be : Backend W C) (rel : List ℕ)
          → find_backend path bs ≡ some (be, rel)
          → ((i : ℕ) × (get_elem? bs i ≡ some be))
            × (be.id ≢ 0)
            × Gives path be.mount_pt rel
            × ((i : ℕ) (other : Backend W C)
                → get_elem? bs i ≡ some other
                → Serves path other
                → length other.mount_pt ≤ length be.mount_pt))
        × (find_backend path bs ≡ none
            → (i : ℕ) (other : Backend W C) → get_elem? bs i ≡ some other
            → Serves path other
            → other.mount_pt ≡ [])
  find_backend_lem path bs z = (
    λ be rel e.
        let ((i, at, s), same, longest) = (find_backend-best path bs).0 be rel e in
        let (used, gives) = serves-Gives path be z s in
        (
          (i, at),
          used,
          subst (Gives path be.mount_pt) (sym same) gives,
          λ j other there t. longest j other there (Serves-serves path other t),
        ),
    λ e i other there t. (find_backend-best path bs).1 e i other there (Serves-serves path other t),
  )
