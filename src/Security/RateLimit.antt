-- ===== src/Security/RateLimit.antt =====
-- kernel/security/security.c, the limiter of failed logins. An operation takes the audit log and
-- gives it back. `t` and `t'` are what the two calls of `pit_ticks` return, the first by
-- `auth_fail`, the second by `audit_log`.
pub mod Account
pub mod Table
pub mod Refine
pub mod Keeps
mod Tests
use open_asd.Prelude.{
  ℕ, ◌+◌, ◌-◌, ◌%◌, ◌^◌, Bool, true, false, ◌&&◌, Option, none, some, List, [], ◌∷◌, ltb, leb, ◌==◌,
  set, get_or, if◌then◌else◌,
}
use open_asd.Prelude.Find.{find_index}
use open_asd.Security.Audit.{Log, audit_log, ns_of_ticks}

abbrev pub max_users : ℕ
max_users = 32

abbrev pub window_ns : ℕ
window_ns = 60000000000

abbrev pub lockout_ns : ℕ
lockout_ns = 30000000000

abbrev pub threshold : ℕ
threshold = 5

abbrev pub login_ok : ℕ
login_ok = 1

abbrev pub login_fail : ℕ
login_fail = 2

-- `ratelimit_entry_t`
pub record Entry : Type 0 where
  pub uid : ℕ
  pub fail_count : ℕ
  pub first_fail_ns : ℕ
  pub lockout_until_ns : ℕ

abbrev pub blank : Entry
blank = record { uid = 0; fail_count = 0; first_fail_ns = 0; lockout_until_ns = 0 }

-- `g_rl_table` and the audit log.
pub record State : Type 0 where
  pub table : List Entry
  pub log : Log

-- The test of `rl_find`.
abbrev pub active : ℕ → Entry → Bool
active uid e = (e.uid == uid) && ltb 0 e.fail_count

abbrev pub unused : Entry → Bool
unused e = e.fail_count == 0

unfoldable pub rl_find : ℕ → List Entry → Option ℕ
rl_find uid table = find_index (active uid) table

-- The loop that looks for the entry to evict, from index `i` on.
unfoldable pub oldest_from : ℕ → ℕ → ℕ → List Entry → ℕ
oldest_from i oldest_ts oldest_idx [] = oldest_idx
oldest_from i oldest_ts oldest_idx (e ∷ es) =
    let older = ltb e.first_fail_ns oldest_ts in
    oldest_from (i + 1) (if older then e.first_fail_ns else oldest_ts)
      (if older then i else oldest_idx) es

-- The index of the entry, and the table with that entry claimed for `uid`.
unfoldable pub rl_alloc : ℕ → List Entry → ℕ × List Entry
rl_alloc uid table = elim (find_index unused table) [
  | some i ↦ (i, set table i (record (get_or table i blank) { uid = uid }))
  | none ↦
      let i = oldest_from 0 (2 ^ 64 - 1) 0 table in (i, set table i (record blank { uid = uid }))
]

-- The entry that `auth_fail` works on.
unfoldable pub rl_entry : ℕ → List Entry → ℕ × List Entry
rl_entry uid table = elim (rl_find uid table) [ some i ↦ (i, table) | none ↦ rl_alloc uid table ]

abbrev pub sub64 : ℕ → ℕ → ℕ
sub64 a b = (a + 2 ^ 64 - b) % 2 ^ 64

-- "Reset window if expired", and the two lines after it.
unfoldable pub count_failure : ℕ → Entry → Entry
count_failure now e =
    let e1 =
      if ltb window_ns (sub64 now e.first_fail_ns)
      then record e { fail_count = 0; first_fail_ns = now }
      else e in
    let e2 = if e1.fail_count == 0 then record e1 { first_fail_ns = now } else e1 in
    record e2 { fail_count = (e2.fail_count + 1) % 2 ^ 32 }

-- "login attempt during lockout", "account locked after repeated failures", "bad password" and
-- "login successful".
pub record Messages : Type 0 where
  pub during_lockout : List ℕ
  pub account_locked : List ℕ
  pub bad_password : List ℕ
  pub successful : List ℕ

module _ (text : Messages) where
  unfoldable pub auth_fail : ℕ → ℕ → ℕ → State → Bool × State
  unfolding count_failure
  auth_fail t t' uid s =
      let now = ns_of_ticks t in
      let (i, table) = rl_entry uid s.table in
      let e = get_or table i blank in
      if ltb now e.lockout_until_ns
      then (
        true,
        record {
          table = table;
          log = audit_log t' 0 uid login_fail (some text.during_lockout) s.log;
        },
      )
      else let e' = count_failure now e in
        if leb threshold e'.fail_count
        then (
          true,
          record {
            table = set table i (record e' { lockout_until_ns = (now + lockout_ns) % 2 ^ 64 });
            log = audit_log t' 0 uid login_fail (some text.account_locked) s.log;
          },
        )
        else (
          false,
          record {
            table = set table i e';
            log = audit_log t' 0 uid login_fail (some text.bad_password) s.log;
          },
        )

  unfoldable pub auth_success : ℕ → ℕ → State → State
  auth_success t' uid s = record {
    table = elim (rl_find uid s.table) [ none ↦ s.table | some i ↦ set s.table i blank ];
    log = audit_log t' 0 uid login_ok (some text.successful) s.log;
  }
