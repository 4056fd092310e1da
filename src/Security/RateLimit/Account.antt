-- ===== src/Security/RateLimit/Account.antt =====
-- The abstract limiter: what one account sees. Its window of 60 seconds begins with a failure and does not
-- slide: the failures before it has passed are forgotten when it has. `none` stands for an account with no failure on
-- record, and the table of the code keeps at most 32 accounts.
use open_asd.Prelude.{ℕ, ◌+◌, ◌-◌, Bool, true, false, Option, none, some, ltb, leb, if◌then◌else◌}
use open_asd.Security.RateLimit.{Entry, window_ns, lockout_ns, threshold}

-- An account with no record starts at its first failure.
unfoldable pub fresh : ℕ → ℕ → Entry
fresh now uid = record { uid = uid; fail_count = 1; first_fail_ns = now; lockout_until_ns = 0 }

-- One failure at time `now` of an account that is not locked out: the window of 60 seconds begins
-- anew where it has passed.
unfoldable pub counted : ℕ → Entry → Entry
counted now e =
    if ltb window_ns (now - e.first_fail_ns)
    then record e { fail_count = 1; first_fail_ns = now }
    else record e { fail_count = e.fail_count + 1 }

unfoldable pub locked : ℕ → Entry → Entry
locked now e = record e { lockout_until_ns = now + lockout_ns }

-- A failure at time `now`: is the account locked, and its record afterwards.
unfoldable pub fail_at : ℕ → ℕ → Option Entry → Bool × Entry
unfolding fresh counted locked
fail_at now uid none = (false, fresh now uid)
fail_at now uid (some e) =
    if ltb now e.lockout_until_ns
    then (true, e)
    else if leb threshold (counted now e).fail_count
    then (true, locked now (counted now e))
    else (false, counted now e)
