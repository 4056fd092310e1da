-- ===== src/Security/Audit.antt =====
-- kernel/security/security.c, the audit log: a ring of 64 entries.
pub mod Recent
mod Tests
use open_asd.Prelude.{
  ℕ, zero, suc, ◌+◌, ◌-◌, ◌*◌, ◌%◌, ◌^◌, Option, none, some, List, [], ◌∷◌, ◌++◌, ltb, leb, length,
  set, get_or, take, replicate, if◌then◌else◌,
}

abbrev pub audit_ring_size : ℕ
audit_ring_size = 64

abbrev pub audit_detail_len : ℕ
audit_detail_len = 48

-- `audit_entry_t`; `detail` is its 48 bytes.
pub record Entry : Type 0 where
  pub timestamp_ns : ℕ
  pub pid : ℕ
  pub uid : ℕ
  pub event : ℕ
  pub detail : List ℕ

abbrev pub blank : Entry
blank = record { timestamp_ns = 0; pid = 0; uid = 0; event = 0; detail = replicate 48 0 }

-- `g_audit_ring` and `g_audit_head`
pub record Log : Type 0 where
  pub ring : List Entry
  pub head : ℕ

abbrev pub no_events : Log
no_events = record { ring = replicate 64 blank; head = 0 }

-- `pit_ticks() * 10000000ULL`
abbrev pub ns_of_ticks : ℕ → ℕ
ns_of_ticks ticks = ticks * 10000000 % 2 ^ 64

-- The bytes that `audit_log` stores of a description; `none` is the null pointer.
unfoldable pub detail_bytes : Option (List ℕ) → List ℕ
detail_bytes none = replicate audit_detail_len 0
detail_bytes (some d) =
    let len = if leb audit_detail_len (length d) then audit_detail_len - 1 else length d in
    take len d ++ replicate (audit_detail_len - len) 0

-- `ticks` is what `pit_ticks` returns.
unfoldable pub audit_log : ℕ → ℕ → ℕ → ℕ → Option (List ℕ) → Log → Log
unfolding detail_bytes
audit_log ticks pid uid event detail l = record {
  ring = set l.ring (l.head % audit_ring_size) (record {
    timestamp_ns = ns_of_ticks ticks;
    pid = pid;
    uid = uid;
    event = event;
    detail = detail_bytes detail;
  });
  head = (l.head + 1) % 2 ^ 32;
}

-- The loop of `audit_dump`: `count` entries from index `start` on, round the ring.
unfoldable pub dump_from : List Entry → ℕ → ℕ → List Entry
dump_from ring start zero = []
dump_from ring start (suc count) =
    get_or ring (start % audit_ring_size) blank ∷ dump_from ring (start + 1) count

-- The entries that `audit_dump` prints, in order.
unfoldable pub audit_dump : Log → List Entry
unfolding dump_from
audit_dump l =
    let count = if ltb l.head audit_ring_size then l.head else audit_ring_size in
    let start = if leb audit_ring_size l.head then l.head % audit_ring_size else 0 in
    dump_from l.ring start count
