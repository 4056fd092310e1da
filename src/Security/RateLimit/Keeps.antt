-- ===== src/Security/RateLimit/Keeps.antt =====
-- The limiter's table stays valid, and a successful login clears the account.
use open_asd.Prelude.{
  ℕ, ◌+◌, ◌≤◌, ◌<◌, ◌≡◌, refl, ◌∙◌, ◌≢◌, ◌⊎◌, inl, inr, Bool, true, false, none, List, arith, ltb,
  Bool-cases, Option-cases, length, set, length-set, get_or, if◌then◌else◌,
}
use native.Mathlib.Decide.{ℕ_discrete}
use open_asd.Prelude.Window.{get_or-set_self, get_or-set_ne}
use open_asd.Prelude.Find.{
  find_index, count, find_index-some, find_index-none, find-set_ne, count-set, find_of_count,
  count_of_find,
}
use open_asd.Security.Audit.{ns_of_ticks}
use open_asd.Security.RateLimit.{
  Entry, State, Messages, blank, active, rl_find, rl_entry, auth_fail, auth_success, max_users,
}
use open_asd.Security.RateLimit.Account.{fresh}
use open_asd.Security.RateLimit.Table.{account, IsValid, InTime, rl_alloc-Claimed}
use open_asd.Security.RateLimit.Refine.{
  outcome, outcome-active, active-fresh, auth_fail-outcome, auth_fail-new,
}
use mathlib.Core.Path.{subst}

bit-le : (b : Bool) → (if b then 1 else 0) ≤ 1
bit-le b = ground arith

-- An account's own entry, or any entry where the account has none, may be overwritten by a record
-- of the account.
set-IsValid :
    (uid i : ℕ) (table : List Entry) (e : Entry)
    → IsValid table
    → i < max_users
    → (e.fail_count ≡ 0 → e.lockout_until_ns ≡ 0)
    → ((other : ℕ) → other ≢ uid → active other e ≡ false)
    → (active uid (get_or table i blank) ≡ true) ⊎ (account uid table ≡ none)
    → IsValid (set table i e)
set-IsValid uid i table e v lt unlocked own old = record {
  long = length-set table i e ∙ v.long;
  single = λ u. single u (ℕ_discrete u uid) old;
  idle = λ j. idle j (ℕ_discrete i j);
}
  where
    counts :
        (u : ℕ)
        → count (active u) (set table i e) + (if active u (get_or table i blank) then 1 else 0)
          ≡ count (active u) table + (if active u e then 1 else 0)
    counts u = count-set (active u) table i e blank (omega (arith, v.long))

    single :
        (u : ℕ)
        → Dec (u ≡ uid)
        → (active uid (get_or table i blank) ≡ true) ⊎ (account uid table ≡ none)
        → count (active u) (set table i e) ≤ 1
    single u (no ne) o = omega (arith, rw (own u ne) at (counts u), v.single u)
    single u (yes p) (inl mine) =
        rw p (omega (arith, rw mine at (counts uid), v.single uid, bit-le (active uid e)))
    single u (yes p) (inr nothing) =
        rw p (
          omega
            (arith, counts uid, count_of_find (active uid) table nothing, bit-le (active uid e)))

    self : get_or (set table i e) i blank ≡ e
    self = get_or-set_self table i e blank (omega (arith, v.long))

    idle :
        (j : ℕ)
        → Dec (i ≡ j)
        → (get_or (set table i e) j blank).fail_count ≡ 0
        → (get_or (set table i e) j blank).lockout_until_ns ≡ 0
    idle j (yes p) z =
        subst
          (λ k.
            (get_or (set table i e) k blank).fail_count ≡ 0
            → (get_or (set table i e) k blank).lockout_until_ns ≡ 0)
          p (λ y. rw self (unlocked (rw self at y))) z
    idle j (no ne) z =
        rw (get_or-set_ne table i j e blank ne)
          (v.idle j (rw (get_or-set_ne table i j e blank ne) at z))

-- After `auth_success` the account has no failure on record, every other account has the record
-- that it had, and the table is valid.
pub auth_success_lem :
    (text : Messages) (t' uid : ℕ) (s : State)
    → IsValid s.table
    → let s' = auth_success text t' uid s in
      (account uid s'.table ≡ none)
      × ((other : ℕ) → other ≢ uid → account other s'.table ≡ account other s.table)
      × IsValid s'.table
unfolding auth_success rl_find
auth_success_lem text t' uid s v = elim (Option-cases (find_index (active uid) s.table)) [
  | inl e ↦ rw (e, auth_success) (find_index-none (active uid) s.table e, λ other ne. refl, v)
  | inr (i, e) ↦
      let (lt, mine, _) = find_index-some (active uid) s.table i blank e in
      rw (e, auth_success)
        (
          find_of_count (active uid) (set s.table i blank) (cleared i lt mine),
          λ other ne.
              find-set_ne (active other) s.table i blank blank (other_idle other i ne mine)
                (blank_idle other),
          set-IsValid uid i s.table blank v (omega (arith, v.long)) (λ _. refl)
              (λ other _. blank_idle other) (inl mine),
        )
]
  where
    blank_idle : (u : ℕ) → active u blank ≡ false
    blank_idle u = ground arith

    other_idle :
        (other i : ℕ)
        → other ≢ uid
        → active uid (get_or s.table i blank) ≡ true
        → active other (get_or s.table i blank) ≡ false
    other_idle other i ne mine = ground arith

    cleared :
        (i : ℕ)
        → i < length s.table
        → active uid (get_or s.table i blank) ≡ true
        → count (active uid) (set s.table i blank) ≡ 0
    cleared i lt mine = omega (
      arith,
      rw (mine, blank_idle uid) at (count-set (active uid) s.table i blank blank lt),
      v.single uid,
    )

fresh-unlocked : (now uid : ℕ) → (fresh now uid).lockout_until_ns ≡ 0
unfolding fresh
fresh-unlocked now uid = refl

other_active :
    (uid other : ℕ) (e : Entry) → other ≢ uid → active uid e ≡ true → active other e ≡ false
other_active uid other e ne h = ground arith

-- A failed login keeps the table valid.
pub auth_fail-IsValid :
    (text : Messages) (t t' uid : ℕ) (s : State)
    → IsValid s.table
    → InTime (ns_of_ticks t) s.table
    → IsValid (auth_fail text t t' uid s).1.table
unfolding rl_find rl_entry
auth_fail-IsValid text t t' uid s v c = elim (Option-cases (find_index (active uid) s.table)) [
  | inl e ↦
      let w = rl_alloc-Claimed uid s.table v in
      rw (auth_fail-new text t t' uid s v e) (
        set-IsValid uid w.index s.table (fresh (ns_of_ticks t) uid) v w.index_lt
          (λ z. fresh-unlocked (ns_of_ticks t) uid)
          (λ other ne.
            other_active uid other (fresh (ns_of_ticks t) uid) ne
              (active-fresh (ns_of_ticks t) uid))
          (inr (find_index-none (active uid) s.table e)))
  | inr (i, e) ↦
      let (lt, mine, _) = find_index-some (active uid) s.table i blank e in
      let now = ns_of_ticks t in
      let old = get_or s.table i blank in
      let (_, table) =
        auth_fail-outcome text t t' uid s {i = i} {table = s.table} (rw (e, rl_entry) refl) in
      let kept = outcome-active now uid old (c.small i) mine in
      elim (Bool-cases (ltb now old.lockout_until_ns)) [
        | inl out ↦ rw table (rw out v)
        | inr on ↦ rw table (
            rw on (
              set-IsValid uid i s.table (outcome now old).1 v (omega (arith, v.long))
                (λ z. absurd (ground arith))
                (λ other ne. other_active uid other (outcome now old).1 ne kept) (inl mine)))
      ]
]
