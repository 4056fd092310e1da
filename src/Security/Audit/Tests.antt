-- ===== src/Security/Audit/Tests.antt =====
-- The audit log at concrete events.
use open_asd.Prelude.{◌≡◌, refl, some, [], ◌∷◌, arith}
use open_asd.Security.Audit.{no_events, audit_log, audit_dump}
use open_asd.Security.Audit.Recent.{entry, latest, audit_dump-log}

audit_dump-log_example :
    audit_dump (audit_log 3 1 0 2 (some (98 ∷ 97 ∷ 100 ∷ [])) no_events)
    ≡ latest 64 (audit_dump no_events) (entry 3 1 0 2 (some (98 ∷ 97 ∷ 100 ∷ [])))
audit_dump-log_example =
    audit_dump-log 3 1 0 2 (some (98 ∷ 97 ∷ 100 ∷ [])) no_events refl (omega arith)
