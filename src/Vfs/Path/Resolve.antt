-- ===== src/Vfs/Path/Resolve.antt =====
-- What a path means, read from its end: every ".." takes away the nearest name before it that is
-- not yet taken, and one that finds none is ignored. `vfs_canonicalize` writes that.
use open_asd.Prelude.{
  ℕ, zero, suc, ◌-◌, ◌≤◌, ◌≡◌, refl, sym, ap, ◌∙◌, inl, inr, false, ◌||◌, some, List, [], ◌∷◌,
  arith, ◌==◌, str_eq, Bool-cases, length, drop, if◌then◌else◌,
}
use open_asd.Prelude.Find.{on_some-eq-some}
use open_asd.Vfs.Path.{
  slash, dot, dot_dot, skip_slashes, take_seg, tail, handle_seg, walk, reverse_onto,
  vfs_canonicalize,
}
use open_asd.Vfs.Path.Canonical.{join, canonicalize-eq-some, rebuild_first-eq-some}

push_byte : ℕ → List (List ℕ) → List (List ℕ)
push_byte c [] = (c ∷ []) ∷ []
push_byte c (s ∷ ss) = (c ∷ s) ∷ ss

-- The text between the slashes.
unfoldable pub components : List ℕ → List (List ℕ)
unfolding push_byte
components [] = []
components (c ∷ cs) = if c == slash then [] ∷ components cs else push_byte c (components cs)

-- The names that remain of components, last first, when `k` names before their end are taken away.
unfoldable pub resolve_back : List (List ℕ) → ℕ → List (List ℕ)
resolve_back [] k = []
resolve_back (s ∷ ss) k =
    if str_eq s [] || str_eq s dot
    then resolve_back ss k
    else if str_eq s dot_dot
    then resolve_back ss (suc k)
    else if k == 0
    then s ∷ resolve_back ss 0
    else resolve_back ss (k - 1)

unfoldable pub resolve : List ℕ → List (List ℕ)
unfolding components resolve_back
resolve path = reverse_onto (resolve_back (reverse_onto (components path) []) 0) []

step : List ℕ → List (List ℕ) → List (List ℕ)
step s stk =
    if str_eq s [] || str_eq s dot then stk else if str_eq s dot_dot then tail stk else s ∷ stk

run : List (List ℕ) → List (List ℕ) → List (List ℕ)
run [] stk = stk
run (s ∷ ss) stk = run ss (step s stk)

-- The stack after components that are given last first.
stack : List (List ℕ) → List (List ℕ)
stack [] = []
stack (s ∷ ss) = step s (stack ss)

run-stack : (ss ts : List (List ℕ)) → run ss (stack ts) ≡ stack (reverse_onto ss ts)
unfolding run stack
run-stack [] ts = refl
run-stack (s ∷ ss) ts = run-stack ss (s ∷ ts)

drop-tail {ℓ} : {A : Type ℓ} (k : ℕ) (xs : List A) → drop k (tail xs) ≡ drop (suc k) xs
drop-tail zero [] = refl
drop-tail (suc k) [] = refl
drop-tail k (x ∷ xs) = refl

resolve_back-eq-drop : (ss : List (List ℕ)) (k : ℕ) → resolve_back ss k ≡ drop k (stack ss)
unfolding resolve_back stack step
resolve_back-eq-drop [] zero = refl
resolve_back-eq-drop [] (suc k) = refl
resolve_back-eq-drop (s ∷ ss) k = elim (Bool-cases (str_eq s [] || str_eq s dot)) [
  | inl skipped ↦ rw skipped (resolve_back-eq-drop ss k)
  | inr kept ↦ elim (Bool-cases (str_eq s dot_dot)) [
    | inl up ↦ rw (kept, up) (resolve_back-eq-drop ss (suc k) ∙ sym (drop-tail k (stack ss)))
    | inr name ↦ rw (kept, name) (go k (resolve_back-eq-drop ss))
  ]
]
  where
    go :
        (k : ℕ)
        → ((j : ℕ) → resolve_back ss j ≡ drop j (stack ss))
        → (if k == 0 then s ∷ resolve_back ss 0 else resolve_back ss (k - 1))
          ≡ drop k (s ∷ stack ss)
    go zero rest = ap (λ t. s ∷ t) (rest 0)
    go (suc k) rest = ground (arith, rest k)

components-take_seg :
    (c : ℕ) (cs : List ℕ)
    → components (c ∷ cs) ≡ (take_seg (c ∷ cs)).0 ∷ components (take_seg (c ∷ cs)).1
unfolding components push_byte take_seg
components-take_seg c [] = ground arith
components-take_seg c (d ∷ cs) = ground (arith, components-take_seg d cs)

run-skip_slashes :
    (p : List ℕ) (stk : List (List ℕ))
    → run (components (skip_slashes p)) stk ≡ run (components p) stk
unfolding components skip_slashes run step
run-skip_slashes [] stk = refl
run-skip_slashes (c ∷ cs) stk = elim (Bool-cases (c == slash)) [
  | inl skipped ↦ rw skipped (run-skip_slashes cs stk)
  | inr kept ↦ ap (λ t. run (components t) stk) (stays kept)
]
  where
    stays : (c == slash) ≡ false → skip_slashes (c ∷ cs) ≡ c ∷ cs
    stays kept = rw kept refl

handle_seg-step :
    (s : List ℕ) (stk stk' : List (List ℕ)) → handle_seg s stk ≡ some stk' → stk' ≡ step s stk
unfolding handle_seg step
handle_seg-step s stk stk' e = ground arith

length-take_seg : (p : List ℕ) → length (take_seg p).1 ≤ length p - 1
unfolding take_seg
length-take_seg [] = omega arith
length-take_seg (c ∷ cs) = ground (arith, length-take_seg cs)

walk-eq-run :
    (n : ℕ) (p : List ℕ) (stk stk' : List (List ℕ))
    → length p ≤ n
    → walk n p stk ≡ some stk'
    → stk' ≡ run (components p) stk
unfolding walk run components
walk-eq-run zero [] stk stk' h e = ground arith
walk-eq-run zero (c ∷ cs) stk stk' h e = absurd (omega arith)
walk-eq-run (suc n) [] stk stk' h e = ground arith
walk-eq-run (suc n) (c ∷ cs) stk stk' h e =
    let (t, handled, rest) =
      on_some-eq-some (handle_seg (take_seg (c ∷ cs)).0 stk) (walk n (take_seg (c ∷ cs)).1) stk'
        e in
    walk-eq-run n (take_seg (c ∷ cs)).1 t stk' (omega (arith, length-take_seg (c ∷ cs))) rest
    ∙ ap (run (components (take_seg (c ∷ cs)).1)) (handle_seg-step _ stk t handled)
    ∙ ap (λ ss. run ss stk) (sym (components-take_seg c cs))

length-skip_slashes : (p : List ℕ) → length (skip_slashes p) ≤ length p
unfolding skip_slashes
length-skip_slashes [] = omega arith
length-skip_slashes (c ∷ cs) = ground (arith, length-skip_slashes cs)

-- A successful `vfs_canonicalize` writes a slash and the names that remain when "." and empty
-- components are dropped, and every ".." takes away the nearest name before it that is not yet taken
-- (none at the root).
pub canonicalize-resolve :
    (path : List ℕ) (sz : ℕ) (out : List ℕ)
    → vfs_canonicalize (some path) sz ≡ some out
    → out ≡ slash ∷ join (resolve path)
unfolding resolve stack
canonicalize-resolve path sz out e =
    let (stk, walked, built, room, short) = canonicalize-eq-some path sz out e in
    (rebuild_first-eq-some sz (reverse_onto stk []) (slash ∷ []) out built).0
    ∙ ap (λ s. slash ∷ join (reverse_onto s []))
        (walk-eq-run (length path) (skip_slashes path) [] stk (length-skip_slashes path) walked
          ∙ run-skip_slashes path []
          ∙ run-stack (components path) []
          ∙ sym (resolve_back-eq-drop (reverse_onto (components path) []) 0))
