-- ===== src/Security/RateLimit/Table.antt =====
-- The invariant of the limiter's table, and the entry that `rl_alloc` hands out.
use open_asd.Prelude.{
  ℕ, ◌+◌, ◌-◌, ◌^◌, ◌≤◌, ◌<◌, ◌≡◌, refl, inl, inr, Option, List, [], ◌∷◌, arith, Option-cases,
  length, set, get_or,
}
use open_asd.Prelude.Find.{find, find_index, count, find_index-some}
use open_asd.Security.RateLimit.{
  Entry, blank, active, unused, rl_alloc, oldest_from, max_users, lockout_ns,
}

-- The record of an account.
abbrev pub account : ℕ → List Entry → Option Entry
account uid table = find (active uid) table

-- 32 entries; an entry with no failures is not locked; no account has two records.
pub record IsValid (table : List Entry) : Type 0 where
  pub long : length table ≡ max_users
  pub single : (uid : ℕ) → count (active uid) table ≤ 1
  pub idle :
      (i : ℕ) → (get_or table i blank).fail_count ≡ 0 → (get_or table i blank).lockout_until_ns ≡ 0

-- The clock has not run back before a record's window, and neither a sum of times nor a counter
-- wraps.
pub record InTime (now : ℕ) (table : List Entry) : Type 0 where
  pub now_lt : now + lockout_ns < 2 ^ 64
  pub past : (i : ℕ) → (get_or table i blank).first_fail_ns ≤ now
  pub small : (i : ℕ) → (get_or table i blank).fail_count + 1 < 2 ^ 32

oldest_from-lt :
    (i ts idx n : ℕ) (es : List Entry) → i + length es ≤ n → idx < n → oldest_from i ts idx es < n
unfolding oldest_from
oldest_from-lt i ts idx n [] h k = k
oldest_from-lt i ts idx n (e ∷ es) h k =
    ground
      (arith, oldest_from-lt (i + 1) e.first_fail_ns i n es, oldest_from-lt (i + 1) ts idx n es)

-- The entry that `rl_alloc` hands out is claimed for the account and has no failures.
pub record Claimed (uid : ℕ) (table : List Entry) : Type 0 where
  pub index : ℕ
  pub entry : Entry
  pub alloc : rl_alloc uid table ≡ (index, set table index entry)
  pub index_lt : index < max_users
  pub owner : entry.uid ≡ uid
  pub no_failures : entry.fail_count ≡ 0
  pub no_lockout : entry.lockout_until_ns ≡ 0

pub rl_alloc-Claimed : (uid : ℕ) (table : List Entry) → IsValid table → Claimed uid table
unfolding rl_alloc
rl_alloc-Claimed uid table v = elim (Option-cases (find_index unused table)) [
  | inl full ↦ record {
    index = oldest_from 0 (2 ^ 64 - 1) 0 table;
    entry = record blank { uid = uid };
    alloc = rw (full, rl_alloc) refl;
    index_lt =
        oldest_from-lt 0 (2 ^ 64 - 1) 0 max_users table (omega (arith, v.long)) (omega arith);
    owner = refl;
    no_failures = refl;
    no_lockout = refl;
  }
  | inr (i, e) ↦
      let (lt, idle, _) = find_index-some unused table i blank e in
      record {
        index = i;
        entry = record (get_or table i blank) { uid = uid };
        alloc = rw (e, rl_alloc) refl;
        index_lt = omega (arith, v.long);
        owner = refl;
        no_failures = ground arith;
        no_lockout = v.idle i (ground arith);
      }
]
