-- ===== src/Vfs/Path/Canonical.antt =====
-- The form of the paths that `vfs_canonicalize` writes.
use open_asd.Prelude.{
  ℕ, zero, suc, ◌+◌, ◌≤◌, ◌<◌, ◌≡◌, refl, ◌∙◌, inl, inr, Bool, true, false, not, ◌&&◌, some, List,
  [], ◌∷◌, ◌++◌, arith, ltb, leb, ◌==◌, str_eq, Bool-cases, length, length-append,
}
use mathlib.Core.List.{append_assoc, append-nil}
use open_asd.Prelude.Find.{on_some, on_some-eq-some}
use open_asd.Vfs.Path.{
  vfs_path_max, slash, dot, dot_dot, skip_slashes, take_seg, handle_seg, walk, rebuild,
  reverse_onto, vfs_canonicalize,
}

unfoldable pub no_slash : List ℕ → Bool
no_slash [] = true
no_slash (c ∷ cs) = not (c == slash) && no_slash cs

-- A proper name: neither empty nor "." nor "..", without a slash.
unfoldable pub is_name : List ℕ → Bool
is_name s = not (str_eq s []) && not (str_eq s dot) && not (str_eq s dot_dot) && no_slash s

unfoldable pub all_names : List (List ℕ) → Bool
all_names [] = true
all_names (s ∷ ss) = is_name s && all_names ss

-- Every component behind a slash.
unfoldable pub behind : List (List ℕ) → List ℕ
behind [] = []
behind (s ∷ ss) = slash ∷ (s ++ behind ss)

-- The components with slashes between them.
unfoldable pub join : List (List ℕ) → List ℕ
join [] = []
join (s ∷ ss) = s ++ behind ss

take_seg-no_slash : (p : List ℕ) → no_slash (take_seg p).0 ≡ true
unfolding take_seg no_slash
take_seg-no_slash [] = refl
take_seg-no_slash (c ∷ cs) = ground (arith, take_seg-no_slash cs)

handle_seg-all_names :
    (seg : List ℕ) (stk stk' : List (List ℕ))
    → no_slash seg ≡ true
    → all_names stk ≡ true
    → handle_seg seg stk ≡ some stk'
    → all_names stk' ≡ true
unfolding handle_seg all_names is_name
handle_seg-all_names seg [] stk' h v e = ground arith
handle_seg-all_names seg (s ∷ stk) stk' h v e = ground arith

handle_seg-length :
    (seg : List ℕ) (stk stk' : List (List ℕ))
    → length stk ≤ 127
    → handle_seg seg stk ≡ some stk'
    → length stk' ≤ 127
unfolding handle_seg
handle_seg-length seg [] stk' b e = ground arith
handle_seg-length seg (s ∷ stk) stk' b e = ground arith

pub walk-all_names :
    (n : ℕ) (p : List ℕ) (stk stk' : List (List ℕ))
    → all_names stk ≡ true
    → length stk ≤ 127
    → walk n p stk ≡ some stk'
    → (all_names stk' ≡ true) × (length stk' ≤ 127)
unfolding walk
walk-all_names zero p stk stk' v b e = ground arith
walk-all_names (suc n) [] stk stk' v b e = ground arith
walk-all_names (suc n) (c ∷ cs) stk stk' v b e =
    let (t, h, rest) =
      on_some-eq-some (handle_seg (take_seg (c ∷ cs)).0 stk) (walk n (take_seg (c ∷ cs)).1) stk'
        e in
    walk-all_names n (take_seg (c ∷ cs)).1 t stk'
      (handle_seg-all_names _ stk t (take_seg-no_slash (c ∷ cs)) v h)
      (handle_seg-length _ stk t b h) rest

pub rebuild-eq-some :
    (sz : ℕ) (ss : List (List ℕ)) (out r : List ℕ)
    → rebuild sz false ss out ≡ some r
    → (r ≡ out ++ behind ss) × (length out < sz → length r < sz)
unfolding rebuild behind
rebuild-eq-some sz [] out r e = (ground (arith, append-nil out), λ h. ground arith)
rebuild-eq-some sz (s ∷ ss) out r e = elim (Bool-cases (ltb sz (length out + length s + 2))) [
  | inl long ↦ ground arith
  | inr fits ↦
      let (e', h') = rebuild-eq-some sz ss ((out ++ (slash ∷ [])) ++ s) r (rest fits) in
      (
        e'
            ∙ append_assoc (out ++ (slash ∷ [])) s (behind ss)
            ∙ append_assoc out (slash ∷ []) (s ++ behind ss),
        λ h. h' (room fits),
      )
]
  where
    rest :
        ltb sz (length out + length s + 2) ≡ false
        → rebuild sz false ss ((out ++ (slash ∷ [])) ++ s) ≡ some r
    rest fits = ground arith

    room : ltb sz (length out + length s + 2) ≡ false → length ((out ++ (slash ∷ [])) ++ s) < sz
    room fits =
        ground (arith, length-append (out ++ (slash ∷ [])) s, length-append out (slash ∷ []))

pub rebuild_first-eq-some :
    (sz : ℕ) (ss : List (List ℕ)) (out r : List ℕ)
    → rebuild sz true ss out ≡ some r
    → (r ≡ out ++ join ss) × (length out < sz → length r < sz)
unfolding rebuild join
rebuild_first-eq-some sz [] out r e = (ground (arith, append-nil out), λ h. ground arith)
rebuild_first-eq-some sz (s ∷ ss) out r e = elim (Bool-cases (ltb sz (length out + length s + 2))) [
  | inl long ↦ ground arith
  | inr fits ↦
      let (e', h') = rebuild-eq-some sz ss (out ++ s) r (rest fits) in
      (e' ∙ append_assoc out s (behind ss), λ h. h' (room fits))
]
  where
    rest : ltb sz (length out + length s + 2) ≡ false → rebuild sz false ss (out ++ s) ≡ some r
    rest fits = ground arith

    room : ltb sz (length out + length s + 2) ≡ false → length (out ++ s) < sz
    room fits = ground (arith, length-append out s)

-- The parts of a successful run.
pub canonicalize-eq-some :
    (path : List ℕ) (sz : ℕ) (out : List ℕ)
    → vfs_canonicalize (some path) sz ≡ some out
    → (stk : List (List ℕ)) × (walk (length path) (skip_slashes path) [] ≡ some stk)
      × (rebuild sz true (reverse_onto stk []) (slash ∷ []) ≡ some out)
      × (0 < sz)
      × (length path < vfs_path_max)
unfolding vfs_canonicalize
canonicalize-eq-some path sz out e = elim (Bool-cases (sz == 0)) [
  | inl none_left ↦ ground arith
  | inr room ↦ elim (Bool-cases (leb vfs_path_max (length path))) [
    | inl long ↦ ground arith
    | inr short ↦
        let (stk, h, r) =
          on_some-eq-some (walk (length path) (skip_slashes path) []) _ out (run room short) in
        (stk, h, r, ground arith, ground arith)
  ]
]
  where
    run :
        (sz == 0) ≡ false
        → leb vfs_path_max (length path) ≡ false
        → on_some
            (walk (length path) (skip_slashes path) [])
            (λ stk. rebuild sz true (reverse_onto stk []) (slash ∷ []))
          ≡ some out
    run room short = ground arith

pub all_names-reverse :
    (ss ts : List (List ℕ))
    → all_names ss ≡ true
    → all_names ts ≡ true
    → all_names (reverse_onto ss ts) ≡ true
unfolding all_names
all_names-reverse [] ts h k = k
all_names-reverse (s ∷ ss) ts h k = all_names-reverse ss (s ∷ ts) (ground arith) (ground arith)

pub length-reverse {ℓ} :
    {A : Type ℓ} (xs ys : List A) → length (reverse_onto xs ys) ≡ length xs + length ys
length-reverse [] ys = omega arith
length-reverse (x ∷ xs) ys = omega (arith, length-reverse xs (x ∷ ys))

-- A successful `vfs_canonicalize` writes a slash and the names of at most 127 components, none of
-- them empty, "." or ".." and none with a slash in it, with one slash between two of them; if the
-- buffer has two bytes or more, the text and its terminator fit.
pub vfs_canonicalize_lem :
    (path : List ℕ) (sz : ℕ) (out : List ℕ)
    → vfs_canonicalize (some path) sz ≡ some out
    → (ss : List (List ℕ)) × (out ≡ slash ∷ join ss)
      × (all_names ss ≡ true)
      × (length ss ≤ 127)
      × (2 ≤ sz → length out < sz)
unfolding all_names
vfs_canonicalize_lem path sz out e =
    let (stk, walked, built, room, short) = canonicalize-eq-some path sz out e in
    let (names, few) =
      walk-all_names (length path) (skip_slashes path) [] stk top (omega arith) walked in
    (
      reverse_onto stk [],
      (rebuild_first-eq-some sz (reverse_onto stk []) (slash ∷ []) out built).0,
      all_names-reverse stk [] names top,
      omega (arith, length-reverse stk []),
      λ h. (rebuild_first-eq-some sz (reverse_onto stk []) (slash ∷ []) out built).1 h,
    )
  where
    top : all_names [] ≡ true
    top = refl
