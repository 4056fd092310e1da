-- ===== src/Security/RateLimit/Tests.antt =====
-- The limiter at a fresh table.
use open_asd.Prelude.{
  ℕ, zero, suc, ◌≡◌, refl, ap, ◌≢◌, Bool, true, false, Option, none, some, [], arith, get_or,
  replicate,
}
use open_asd.Prelude.Find.{count, find_index}
use open_asd.Security.Audit.{no_events, ns_of_ticks}
use open_asd.Security.RateLimit.{
  Entry, State, Messages, blank, active, auth_fail, auth_success, rl_find, rl_alloc, rl_entry,
  count_failure,
}
use open_asd.Security.RateLimit.Account.{fail_at}
use open_asd.Security.RateLimit.Table.{account, IsValid, InTime}
use open_asd.Security.RateLimit.Refine.{auth_fail_refines}
use open_asd.Security.RateLimit.Keeps.{auth_success_lem}

abbrev text : Messages
text = record { during_lockout = []; account_locked = []; bad_password = []; successful = [] }

abbrev start : State
start = record { table = replicate 32 blank; log = no_events }

get_or-blank : (n i : ℕ) → get_or (replicate n blank) i blank ≡ blank
get_or-blank zero i = refl
get_or-blank (suc n) zero = refl
get_or-blank (suc n) (suc i) = get_or-blank n i

no_active : (uid n : ℕ) → count (active uid) (replicate n blank) ≡ 0
unfolding count
no_active uid zero = refl
no_active uid (suc n) = ground (arith, no_active uid n)

start-IsValid : IsValid start.table
start-IsValid = record {
  long = refl;
  single = λ uid. omega (arith, no_active uid 32);
  idle = λ i _. ap (λ (e : Entry). e.lockout_until_ns) (get_or-blank 32 i);
}

start-InTime : InTime (ns_of_ticks 100) start.table
start-InTime = record {
  now_lt = omega arith;
  past = λ i. omega (arith, ap (λ (e : Entry). e.first_fail_ns) (get_or-blank 32 i));
  small = λ i. omega (arith, ap (λ (e : Entry). e.fail_count) (get_or-blank 32 i));
}

-- Five failures in a row lock the account.
fail_times : ℕ → State → State
fail_times zero s = s
fail_times (suc n) s = fail_times n (auth_fail text 100 100 7 s).1

fifth_locks :
    ((auth_fail text 100 100 7 (fail_times 3 start)).0 ≡ false)
    × ((auth_fail text 100 100 7 (fail_times 4 start)).0 ≡ true)
unfolding fail_times auth_fail rl_entry rl_find rl_alloc find_index
fifth_locks = (refl, refl)

abbrev then_fail : ℕ → State → State
then_fail t s = (auth_fail text t t 7 s).1

-- After a failure, five more within 4 seconds, 58 to 62 seconds later, do not lock the account.
no_sliding_window :
    (auth_fail text 6300 6300 7
      (then_fail 6200 (then_fail 6100 (then_fail 6000 (then_fail 5900 (then_fail 100 start)))))).0
    ≡ false
unfolding auth_fail count_failure rl_entry rl_find rl_alloc find_index
no_sliding_window = refl

auth_fail_refines_example :
    (let (lock, s) = auth_fail text 100 100 7 start in
      let r : Bool × Option Entry = (lock, account 7 s.table) in r)
    ≡ (let (lock, e) = fail_at (ns_of_ticks 100) 7 (account 7 start.table) in
        let r : Bool × Option Entry = (lock, some e) in r)
auth_fail_refines_example = auth_fail_refines text 100 100 7 start start-IsValid start-InTime

auth_success_lem_example :
    let s = auth_success text 100 7 start in
    (account 7 s.table ≡ none)
    × ((other : ℕ) → other ≢ 7 → account other s.table ≡ account other start.table)
    × IsValid s.table
auth_success_lem_example = auth_success_lem text 100 7 start start-IsValid
