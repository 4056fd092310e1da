-- ===== src/Security/Policy.antt =====
-- kernel/security/security.c, the W^X policy: `security_check_wx`.
mod Tests
use open_asd.Prelude.{
  ℕ, ◌/◌, ◌%◌, bit_and, ◌≡◌, ◌⊎◌, not, ◌&&◌, some, List, arith, Rc, ok, fail, ◌==◌, if◌then◌else◌,
}
use open_asd.Prelude.Bits.{bit_and_pow}
use open_asd.Security.Audit.{Log, audit_log}

abbrev pub sec_prot_write : ℕ
sec_prot_write = 2

abbrev pub sec_prot_exec : ℕ
sec_prot_exec = 4

abbrev pub audit_syscall_deny : ℕ
audit_syscall_deny = 4

-- `ticks` is the clock's reading, `text` the message "W^X violation: …".
pub security_check_wx : ℕ → List ℕ → ℕ → Log → Rc × Log
security_check_wx ticks text prot log =
    if not (bit_and prot sec_prot_write == 0) && not (bit_and prot sec_prot_exec == 0)
    then (fail, audit_log ticks 0 0 audit_syscall_deny (some text) log)
    else (ok, log)

-- A mapping is refused, and the refusal logged, exactly when it has the bits for writing (bit 1)
-- and for execution (bit 2); any other leaves the log alone.
pub security_check_wx_lem :
    (ticks prot : ℕ) (text : List ℕ) (log : Log)
    → ((prot / 2 % 2 ≡ 1)
        × (prot / 4 % 2 ≡ 1)
        × (security_check_wx ticks text prot log
            ≡ (fail, audit_log ticks 0 0 audit_syscall_deny (some text) log)))
      ⊎ (¬ ((prot / 2 % 2 ≡ 1) × (prot / 4 % 2 ≡ 1)))
        × (security_check_wx ticks text prot log ≡ (ok, log))
unfolding security_check_wx
security_check_wx_lem ticks prot text log = ground (arith, bit_and_pow 1 prot, bit_and_pow 2 prot)
