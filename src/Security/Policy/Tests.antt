-- ===== src/Security/Policy/Tests.antt =====
-- The policy at a concrete request.
use open_asd.Prelude.{ℕ, ◌/◌, ◌%◌, ◌≡◌, ◌⊎◌, some, [], ok, fail}
use open_asd.Security.Audit.{no_events, audit_log}
use open_asd.Security.Policy.{security_check_wx, security_check_wx_lem, audit_syscall_deny}

security_check_wx_lem_example :
    ((◌≡◌ {A = ℕ} (7 / 2 % 2) 1)
      × (◌≡◌ {A = ℕ} (7 / 4 % 2) 1)
      × (security_check_wx 5 [] 7 no_events
          ≡ (fail, audit_log 5 0 0 audit_syscall_deny (some []) no_events)))
    ⊎ (¬ ((◌≡◌ {A = ℕ} (7 / 2 % 2) 1) × (◌≡◌ {A = ℕ} (7 / 4 % 2) 1)))
      × (security_check_wx 5 [] 7 no_events ≡ (ok, no_events))
security_check_wx_lem_example = security_check_wx_lem 5 7 [] no_events
