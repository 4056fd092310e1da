-- ===== src/Vfs/Path.antt =====
-- `vfs_canonicalize` of kernel/vfs/vfs.c. A path is the list of its bytes before the terminator. The
-- stack of components has its top first. A result is the text written to `out`, none is -1.
pub mod Canonical
pub mod Stable
pub mod Resolve
mod Tests
use open_asd.Prelude.Find.{on_some}
use open_asd.Prelude.{
  ℕ, zero, suc, ◌+◌, ◌-◌, ◌/◌, Bool, true, false, ◌||◌, Option, none, some, List, [], ◌∷◌, ◌++◌,
  ltb, leb, ◌==◌, str_eq, length, if◌then◌else◌,
}

abbrev pub vfs_path_max : ℕ
vfs_path_max = 256

abbrev pub slash : ℕ
slash = b'/'

abbrev pub dot : List ℕ
dot = b'.' ∷ []

abbrev pub dot_dot : List ℕ
dot_dot = b'.' ∷ b'.' ∷ []

-- `while (*p == '/') p++;`
unfoldable pub skip_slashes : List ℕ → List ℕ
skip_slashes [] = []
skip_slashes (c ∷ cs) = if c == slash then skip_slashes cs else c ∷ cs

-- "Find end of component": the component and what is behind the slash that ends it.
unfoldable pub take_seg : List ℕ → List ℕ × List ℕ
take_seg [] = ([], [])
take_seg (c ∷ cs) = let rest = take_seg cs in if c == slash then ([], cs) else (c ∷ rest.0, rest.1)

abbrev pub tail {ℓ} : {A : Type ℓ} → List A → List A
tail [] = []
tail (x ∷ xs) = xs

unfoldable pub handle_seg : List ℕ → List (List ℕ) → Option (List (List ℕ))
handle_seg seg stk =
    if str_eq seg [] || str_eq seg dot
    then some stk
    else if str_eq seg dot_dot
    then some (tail stk)
    else if leb (vfs_path_max / 2 - 1) (length stk)
    then none
    else some (seg ∷ stk)

-- The loop over the components; a turn takes at least one byte, so the length is fuel enough.
unfoldable pub walk : ℕ → List ℕ → List (List ℕ) → Option (List (List ℕ))
walk zero p stk = some stk
walk (suc n) [] stk = some stk
walk (suc n) (c ∷ cs) stk = let r = take_seg (c ∷ cs) in on_some (handle_seg r.0 stk) (walk n r.1)

-- "Reconstruct": `first` is `i == 0`, and `pos` is the length of `out`.
unfoldable pub rebuild : ℕ → Bool → List (List ℕ) → List ℕ → Option (List ℕ)
rebuild out_sz first [] out = some out
rebuild out_sz first (s ∷ ss) out =
    let rest = rebuild out_sz false ss ((if first then out else out ++ (slash ∷ [])) ++ s) in
    if ltb out_sz (length out + length s + 2) then none else rest

abbrev pub reverse_onto {ℓ} : {A : Type ℓ} → List A → List A → List A
reverse_onto [] ys = ys
reverse_onto (x ∷ xs) ys = reverse_onto xs (x ∷ ys)

unfoldable pub vfs_canonicalize : Option (List ℕ) → ℕ → Option (List ℕ)
vfs_canonicalize none out_sz = none
vfs_canonicalize (some path) out_sz =
    if out_sz == 0
    then none
    else if leb vfs_path_max (length path)
    then none
    else on_some (walk (length path) (skip_slashes path) [])
        (λ stk. rebuild out_sz true (reverse_onto stk []) (slash ∷ []))
