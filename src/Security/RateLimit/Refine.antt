-- ===== src/Security/RateLimit/Refine.antt =====
-- `auth_fail` implements the abstract limiter.
use open_asd.Prelude.{
  ℕ, ◌+◌, ◌%◌, ◌^◌, ◌≤◌, ◌<◌, ◌≡◌, refl, sym, ap, ◌∙◌, inl, inr, Bool, true, false, Option, none,
  some, List, arith, ltb, leb, Bool-cases, Option-cases, set, get_or, set-set, if◌then◌else◌,
}
use open_asd.Prelude.Find.{find_index-some, find_index-none, find-set_found, find-set_new}
use open_asd.Prelude.Window.{get_or-set_self}
use open_asd.Security.Audit.{ns_of_ticks}
use open_asd.Security.RateLimit.{
  Entry, State, Messages, blank, active, rl_find, rl_entry, count_failure, auth_fail, lockout_ns,
}
use open_asd.Security.RateLimit.Account.{fail_at, fresh}
use open_asd.Security.RateLimit.Table.{account, IsValid, InTime, rl_alloc-Claimed}

-- What `auth_fail` does to the entry that it works on.
pub outcome : ℕ → Entry → Bool × Entry
outcome now e =
    if ltb now e.lockout_until_ns
    then (true, e)
    else if leb 5 (count_failure now e).fail_count
    then (true, record (count_failure now e) { lockout_until_ns = (now + lockout_ns) % 2 ^ 64 })
    else (false, count_failure now e)

pub auth_fail-outcome :
    (text : Messages) (t t' uid : ℕ) (s : State) {i : ℕ} {table : List Entry}
    → rl_entry uid s.table ≡ (i, table)
    → ((auth_fail text t t' uid s).0 ≡ (outcome (ns_of_ticks t) (get_or table i blank)).0)
      × ((auth_fail text t t' uid s).1.table ≡ (
          if ltb (ns_of_ticks t) (get_or table i blank).lockout_until_ns
          then table
          else set table i (outcome (ns_of_ticks t) (get_or table i blank)).1))
unfolding auth_fail outcome
auth_fail-outcome text t t' uid s {i} {table} e = rw (e, auth_fail) (ground arith, ground arith)

-- An entry in use is treated as the abstract limiter treats its account.
outcome-fail_at :
    (now uid : ℕ) (e : Entry)
    → now + lockout_ns < 2 ^ 64
    → e.first_fail_ns ≤ now
    → e.fail_count + 1 < 2 ^ 32
    → 0 < e.fail_count
    → outcome now e ≡ fail_at now uid (some e)
unfolding outcome count_failure fail_at
outcome-fail_at now uid e a b c d = ground arith

pub outcome-fresh :
    (now uid : ℕ) (e : Entry)
    → e.uid ≡ uid
    → e.fail_count ≡ 0
    → e.lockout_until_ns ≡ 0
    → outcome now e ≡ (false, fresh now uid)
unfolding outcome count_failure fresh
outcome-fresh now uid e a b c = ground arith

outcome-locked_out :
    (now : ℕ) (e : Entry) → ltb now e.lockout_until_ns ≡ true → (outcome now e).1 ≡ e
unfolding outcome
outcome-locked_out now e h = rw h refl

pub outcome-active :
    (now uid : ℕ) (e : Entry)
    → e.fail_count + 1 < 2 ^ 32
    → active uid e ≡ true
    → active uid (outcome now e).1 ≡ true
unfolding outcome count_failure
outcome-active now uid e small h = ground arith

pub active-fresh : (now uid : ℕ) → active uid (fresh now uid) ≡ true
unfolding fresh
active-fresh now uid = ground arith

abbrev Refines : Messages → ℕ → ℕ → ℕ → State → Type 0
Refines text t t' uid s =
    (let (lock, s') = auth_fail text t t' uid s in
      let r : Bool × Option Entry = (lock, account uid s'.table) in r)
    ≡ (let (lock, e) = fail_at (ns_of_ticks t) uid (account uid s.table) in
        let r : Bool × Option Entry = (lock, some e) in r)

-- The account has a record, which is changed in place.
Refines-old :
    (text : Messages) (t t' uid : ℕ) (s : State)
    → IsValid s.table
    → InTime (ns_of_ticks t) s.table
    → (i : ℕ) → rl_find uid s.table ≡ some i
    → Refines text t t' uid s
unfolding rl_find rl_entry
Refines-old text t t' uid s v c i e =
    let (lt, mine, found) = find_index-some (active uid) s.table i blank e in
    let at_i : rl_entry uid s.table ≡ (i, s.table) = rw (e, rl_entry) refl in
    let (lock, table) = auth_fail-outcome text t t' uid s at_i in
    let pos : 0 < (get_or s.table i blank).fail_count = ground arith in
    let same =
      outcome-fail_at (ns_of_ticks t) uid (get_or s.table i blank) c.now_lt (c.past i) (c.small i)
        pos in
    rw (found, lock, table, ← same)
      (ap (λ (o : Option Entry). ((outcome (ns_of_ticks t) (get_or s.table i blank)).0, o))
        (elim (Bool-cases (ltb (ns_of_ticks t) (get_or s.table i blank).lockout_until_ns)) [
          | inl out ↦ rw out (
              found
              ∙ ap some (sym (outcome-locked_out (ns_of_ticks t) (get_or s.table i blank) out)))
          | inr on ↦ rw on (
              find-set_found (active uid) s.table i
                (outcome (ns_of_ticks t) (get_or s.table i blank)).1 e
                (outcome-active (ns_of_ticks t) uid (get_or s.table i blank) (c.small i) mine))
        ]))

-- The account has no record: one is claimed.
pub auth_fail-new :
    (text : Messages) (t t' uid : ℕ) (s : State) (v : IsValid s.table)
    → rl_find uid s.table ≡ none
    → (auth_fail text t t' uid s).1.table
      ≡ set s.table (rl_alloc-Claimed uid s.table v).index (fresh (ns_of_ticks t) uid)
unfolding rl_find rl_entry
auth_fail-new text t t' uid s v e =
    let w = rl_alloc-Claimed uid s.table v in
    let claimed : rl_entry uid s.table ≡ (w.index, set s.table w.index w.entry) =
      rw (e, rl_entry) w.alloc in
    let own : get_or (set s.table w.index w.entry) w.index blank ≡ w.entry =
      get_or-set_self s.table w.index w.entry blank (omega (arith, v.long, w.index_lt)) in
    let new = outcome-fresh (ns_of_ticks t) uid w.entry w.owner w.no_failures w.no_lockout in
    let open_now : ltb (ns_of_ticks t) w.entry.lockout_until_ns ≡ false =
      ground (arith, w.no_lockout) in
    rw (own, open_now, new, set-set) at ((auth_fail-outcome text t t' uid s claimed).1)

auth_fail-new_lock :
    (text : Messages) (t t' uid : ℕ) (s : State)
    → IsValid s.table
    → rl_find uid s.table ≡ none
    → (auth_fail text t t' uid s).0 ≡ false
unfolding rl_find rl_entry
auth_fail-new_lock text t t' uid s v e =
    let w = rl_alloc-Claimed uid s.table v in
    let claimed : rl_entry uid s.table ≡ (w.index, set s.table w.index w.entry) =
      rw (e, rl_entry) w.alloc in
    let own : get_or (set s.table w.index w.entry) w.index blank ≡ w.entry =
      get_or-set_self s.table w.index w.entry blank (omega (arith, v.long, w.index_lt)) in
    let new = outcome-fresh (ns_of_ticks t) uid w.entry w.owner w.no_failures w.no_lockout in
    rw (own, new) at ((auth_fail-outcome text t t' uid s claimed).0)

Refines-new :
    (text : Messages) (t t' uid : ℕ) (s : State)
    → IsValid s.table
    → rl_find uid s.table ≡ none
    → Refines text t t' uid s
unfolding rl_find fail_at
Refines-new text t t' uid s v e =
    let w = rl_alloc-Claimed uid s.table v in
    let free : account uid s.table ≡ none = find_index-none (active uid) s.table e in
    rw (auth_fail-new_lock text t t' uid s v e, auth_fail-new text t t' uid s v e, free)
      (ap (λ (o : Option Entry). (false, o))
        (find-set_new (active uid) s.table w.index (fresh (ns_of_ticks t) uid) free
          (omega (arith, v.long, w.index_lt)) (active-fresh (ns_of_ticks t) uid)))

-- `auth_fail` answers as the abstract limiter does for the account, whose window of 60 seconds begins
-- with a failure and does not slide, and the account's record afterwards is the abstract one. The table is valid and the clock has not run back or out.
pub auth_fail_refines :
    (text : Messages) (t t' uid : ℕ) (s : State)
    → IsValid s.table
    → InTime (ns_of_ticks t) s.table
    → (let (lock, s') = auth_fail text t t' uid s in
        let r : Bool × Option Entry = (lock, account uid s'.table) in r)
      ≡ (let (lock, e) = fail_at (ns_of_ticks t) uid (account uid s.table) in
          let r : Bool × Option Entry = (lock, some e) in r)
auth_fail_refines text t t' uid s v c = elim (Option-cases (rl_find uid s.table)) [
  | inl none_yet ↦ Refines-new text t t' uid s v none_yet
  | inr (i, e) ↦ Refines-old text t t' uid s v c i e
]
