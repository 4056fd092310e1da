-- ===== src/Vfs/Path/Stable.antt =====
-- A path that `vfs_canonicalize` has written is its own canonical form.
use open_asd.Prelude.{
  ℕ, zero, suc, ◌+◌, ◌≤◌, ◌<◌, ◌≡◌, refl, ap, ◌∙◌, ◌≢◌, true, false, some, List, [], ◌∷◌, ◌++◌,
  arith, leb, ◌==◌, length, length-append,
}
use open_asd.Vfs.Path.{
  vfs_path_max, slash, skip_slashes, take_seg, handle_seg, walk, rebuild, reverse_onto,
  vfs_canonicalize,
}
use open_asd.Vfs.Path.Canonical.{
  no_slash, is_name, all_names, behind, join, canonicalize-eq-some, rebuild_first-eq-some,
  walk-all_names, all_names-reverse, length-reverse,
}
use mathlib.Core.List.{append-nil}

take_seg-end : (s : List ℕ) → no_slash s ≡ true → take_seg (s ++ []) ≡ (s, [])
unfolding take_seg no_slash
take_seg-end [] h = refl
take_seg-end (c ∷ s) h = ground (arith, take_seg-end s)

take_seg-slash : (s p : List ℕ) → no_slash s ≡ true → take_seg (s ++ (slash ∷ p)) ≡ (s, p)
unfolding take_seg no_slash
take_seg-slash [] p h = refl
take_seg-slash (c ∷ s) p h = ground (arith, take_seg-slash s p)

take_seg-join :
    (s : List ℕ) (ss : List (List ℕ)) → no_slash s ≡ true → take_seg (s ++ behind ss) ≡ (s, join ss)
unfolding behind join
take_seg-join s [] h = take_seg-end s h
take_seg-join s (t ∷ ss) h = take_seg-slash s (t ++ behind ss) h

join-le-behind : (ss : List (List ℕ)) → length (join ss) ≤ length (behind ss)
unfolding join behind
join-le-behind [] = omega arith
join-le-behind (s ∷ ss) = omega arith

handle_seg-name :
    (s : List ℕ) (stk : List (List ℕ))
    → is_name s ≡ true
    → length stk < 127
    → handle_seg s stk ≡ some (s ∷ stk)
unfolding handle_seg is_name
handle_seg-name s stk h k = ground arith

all_names-cons :
    (s : List ℕ) (ss : List (List ℕ))
    → all_names (s ∷ ss) ≡ true
    → (is_name s ≡ true) × (all_names ss ≡ true)
unfolding all_names
all_names-cons s ss v = ground arith

no_empty : is_name [] ≢ true
unfolding is_name
no_empty h = cc

name-no_slash : (s : List ℕ) → is_name s ≡ true → no_slash s ≡ true
unfolding is_name
name-no_slash s h = ground arith

-- The loop pushes the names of a canonical path one after the other.
walk-join :
    (n : ℕ) (ss stk : List (List ℕ))
    → all_names ss ≡ true
    → length ss + length stk ≤ 127
    → length (join ss) ≤ n
    → walk n (join ss) stk ≡ some (reverse_onto ss stk)
unfolding walk join all_names
walk-join zero [] stk v b k = refl
walk-join (suc n) [] stk v b k = refl
walk-join n ([] ∷ ss) stk v b k = absurd (no_empty (all_names-cons [] ss v).0)
walk-join zero ((c ∷ s) ∷ ss) stk v b k = absurd (omega arith)
walk-join (suc n) ((c ∷ s) ∷ ss) stk v b k =
    let (name, names) = all_names-cons (c ∷ s) ss v in
    rw
      (
        take_seg-join (c ∷ s) ss (name-no_slash (c ∷ s) name),
        handle_seg-name (c ∷ s) stk name (omega arith),
      )
      (walk-join n ss ((c ∷ s) ∷ stk) names (omega arith)
        (omega (arith, join-le-behind ss, length-append s (behind ss))))

skip-join : (ss : List (List ℕ)) → all_names ss ≡ true → skip_slashes (slash ∷ join ss) ≡ join ss
unfolding skip_slashes join no_slash
skip-join [] v = refl
skip-join ([] ∷ ss) v = absurd (no_empty (all_names-cons [] ss v).0)
skip-join ((c ∷ s) ∷ ss) v = rw (first (name-no_slash (c ∷ s) (all_names-cons (c ∷ s) ss v).0)) refl
  where
    first : no_slash (c ∷ s) ≡ true → (c == slash) ≡ false
    first h = ground arith

reverse-reverse_onto {ℓ} :
    {A : Type ℓ} (xs ys zs : List A)
    → reverse_onto (reverse_onto xs ys) zs ≡ reverse_onto ys (xs ++ zs)
reverse-reverse_onto [] ys zs = refl
reverse-reverse_onto (x ∷ xs) ys zs = reverse-reverse_onto xs (x ∷ ys) zs

canonicalize_of_walk :
    (path out : List ℕ) (sz : ℕ) (stk : List (List ℕ))
    → 0 < sz
    → length path < vfs_path_max
    → walk (length path) (skip_slashes path) [] ≡ some stk
    → rebuild sz true (reverse_onto stk []) (slash ∷ []) ≡ some out
    → vfs_canonicalize (some path) sz ≡ some out
unfolding vfs_canonicalize
canonicalize_of_walk path out sz stk room short walked built = rw (nonzero, fits, walked) built
  where
    nonzero : (sz == 0) ≡ false
    nonzero = ground arith

    fits : leb vfs_path_max (length path) ≡ false
    fits = ground arith

-- What `vfs_canonicalize` writes to a buffer of up to 256 bytes (two at least) is accepted by a
-- second call with a buffer of the same size, and comes out unchanged.
pub vfs_canonicalize-vfs_canonicalize :
    (path : List ℕ) (sz : ℕ) (out : List ℕ)
    → 2 ≤ sz
    → sz ≤ vfs_path_max
    → vfs_canonicalize (some path) sz ≡ some out
    → vfs_canonicalize (some out) sz ≡ some out
unfolding all_names
vfs_canonicalize-vfs_canonicalize path sz out low high e =
    let (stk, walked, built, room, short) = canonicalize-eq-some path sz out e in
    let (names, few) =
      walk-all_names (length path) (skip_slashes path) [] stk top (omega arith) walked in
    let (form, fits) = rebuild_first-eq-some sz (reverse_onto stk []) (slash ∷ []) out built in
    let all = all_names-reverse stk [] names top in
    canonicalize_of_walk out out sz stk room (omega (arith, fits low))
      (rw form (
        ap (λ p. walk (length (slash ∷ join (reverse_onto stk []))) p []) (skip-join _ all)
        ∙ walk-join (length (slash ∷ join (reverse_onto stk []))) (reverse_onto stk []) [] all
            (omega (arith, length-reverse stk [])) (omega arith)
        ∙ ap some (reverse-reverse_onto stk [] [] ∙ append-nil stk)))
      built
  where
    top : all_names [] ≡ true
    top = refl
