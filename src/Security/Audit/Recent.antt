-- ===== src/Security/Audit/Recent.antt =====
-- The audit log shows the latest 64 events, oldest first.
use open_asd.Prelude.{
  ℕ, zero, suc, ◌+◌, ◌-◌, ◌%◌, ◌^◌, ◌≤◌, ◌<◌, min, ◌≡◌, refl, sym, ap, ◌∙◌, inl, inr, true, false,
  Option, some, List, [], ◌∷◌, ◌++◌, arith, ltb, leb, Bool-cases, length, set, length-append,
  get_or, take, drop, replicate, length-take, length-replicate, get_or-append_right,
  get_or-replicate, take-append_left, take_all, if◌then◌else◌,
}
use native.Mathlib.Decide.{dec_lt}
use mathlib.Core.Path.{ap₂}
use open_asd.Prelude.Window.{window, window-mod, window-set, length-window}
use open_asd.Security.Audit.{
  Log, Entry, blank, detail_bytes, ns_of_ticks, audit_log, audit_dump, dump_from, audit_detail_len,
}

-- What a log of at most `n` events shows after one more.
pub latest : ℕ → List Entry → Entry → List Entry
latest n shown e = (if ltb (length shown) n then shown else drop 1 shown) ++ (e ∷ [])

-- The entry that `audit_log` makes.
pub entry : ℕ → ℕ → ℕ → ℕ → Option (List ℕ) → Entry
entry ticks pid uid event detail = record {
  timestamp_ns = ns_of_ticks ticks;
  pid = pid;
  uid = uid;
  event = event;
  detail = detail_bytes detail;
}

dump_from-window :
    (ring : List Entry) (start c : ℕ) → dump_from ring start c ≡ window ring blank 64 start c
unfolding dump_from
dump_from-window ring start zero = refl
dump_from-window ring start (suc c) =
    ap (λ t. get_or ring (start % 64) blank ∷ t) (dump_from-window ring (start + 1) c)

dump_below : (l : Log) → l.head < 64 → audit_dump l ≡ window l.ring blank 64 0 l.head
unfolding audit_dump
dump_below l h = rw (few, low) (dump_from-window l.ring 0 l.head)
  where
    few : ltb l.head 64 ≡ true
    few = ground arith

    low : leb 64 l.head ≡ false
    low = ground arith

dump_above : (l : Log) → 64 ≤ l.head → audit_dump l ≡ window l.ring blank 64 (l.head - 64) 64
unfolding audit_dump
dump_above l h =
    rw (many, high)
      (dump_from-window l.ring (l.head % 64) 64
        ∙ window-mod l.ring blank 64 (l.head % 64) (l.head - 64) 64 (omega arith))
  where
    many : ltb l.head 64 ≡ false
    many = ground arith

    high : leb 64 l.head ≡ true
    high = ground arith

length-dump : (l : Log) → length (audit_dump l) ≡ min l.head 64
length-dump l = elim (dec_lt l.head 64) [
  | yes h ↦ rw (dump_below l h) (omega (arith, length-window l.ring blank 64 0 l.head))
  | no h ↦
      rw (dump_above l (omega arith))
        (omega (arith, length-window l.ring blank 64 (l.head - 64) 64))
]

module _ (e : Entry) (l : Log) (long : length l.ring ≡ 64) where
  abbrev logged : Log
  logged = record { ring = set l.ring (l.head % 64) e; head = (l.head + 1) % 2 ^ 32 }

  -- Of `suc c` entries that end with the new one, the others are those of the old window.
  ends :
      (i c : ℕ)
      → c < 64
      → i + c ≡ l.head
      → window logged.ring blank 64 i (suc c) ≡ window l.ring blank 64 i c ++ (e ∷ [])
  ends i c h q =
      ap (λ k. window (set l.ring (k % 64) e) blank 64 i (suc c)) (sym q)
      ∙ window-set l.ring blank 64 long i c e h

  below : l.head < 64 → audit_dump logged ≡ audit_dump l ++ (e ∷ [])
  below h = shown ∙ ends 0 l.head h (omega arith) ∙ ap (λ t. t ++ (e ∷ [])) (sym (dump_below l h))
    where
      shown : audit_dump logged ≡ window logged.ring blank 64 0 (suc l.head)
      shown = elim (dec_lt l.head 63) [
        | yes p ↦
            dump_below logged (omega arith)
            ∙ ap (window logged.ring blank 64 0) {y = suc l.head} (omega arith)
        | no p ↦
            dump_above logged (omega arith)
            ∙ ap₂ (window logged.ring blank 64) {x = logged.head - 64} {y = 0} {u = 64}
                {v = suc l.head} (omega arith) (omega arith)
      ]

  above : 64 ≤ l.head → l.head + 1 < 2 ^ 32 → audit_dump logged ≡ drop 1 (audit_dump l) ++ (e ∷ [])
  above h lt =
      dump_above logged (omega arith)
      ∙ ap (λ i. window logged.ring blank 64 i 64) {y = l.head - 64 + 1} (omega arith)
      ∙ ends (l.head - 64 + 1) 63 (omega arith) (omega arith)
      ∙ ap (λ t. drop 1 t ++ (e ∷ [])) (sym (dump_above l h))

-- After an event `audit_dump` shows what it showed before, less the oldest event where 64 were
-- shown, and the new event last; fewer than 2 ^ 32 events have been logged.
pub audit_dump-log :
    (ticks pid uid event : ℕ) (detail : Option (List ℕ)) (l : Log)
    → length l.ring ≡ 64
    → l.head + 1 < 2 ^ 32
    → audit_dump (audit_log ticks pid uid event detail l)
      ≡ latest 64 (audit_dump l) (entry ticks pid uid event detail)
unfolding audit_log latest entry
audit_dump-log ticks pid uid event detail l long lt = elim (dec_lt l.head 64) [
  | yes h ↦ rw (few h) (below (entry ticks pid uid event detail) l long h)
  | no h ↦ rw (many h) (above (entry ticks pid uid event detail) l long (omega arith) lt)
]
  where
    few : l.head < 64 → ltb (length (audit_dump l)) 64 ≡ true
    few h = ground (arith, length-dump l)

    many : ¬ (l.head < 64) → ltb (length (audit_dump l)) 64 ≡ false
    many h = ground (arith, length-dump l)

-- `k` bytes of text, and zeros.
padded :
    (k : ℕ) (t : List ℕ)
    → k < 48
    → length t ≡ k
    → (length (t ++ replicate (48 - k) 0) ≡ 48)
      × (get_or (t ++ replicate (48 - k) 0) 47 1 ≡ 0)
      × (take k (t ++ replicate (48 - k) 0) ≡ t)
padded k t h e = (
  length-append t (replicate (48 - k) 0) ∙ omega (arith, length-replicate {A = ℕ} (48 - k) 0),
  get_or-append_right t (replicate (48 - k) 0) 47 1 (omega arith)
      ∙ get_or-replicate (48 - k) (47 - length t) 0 1 (omega arith),
  take-append_left k t (replicate (48 - k) 0) e,
)

-- A stored description is 48 bytes, the last of them 0, and begins with the text up to 47 bytes.
pub detail_bytes_lem :
    (d : List ℕ)
    → (length (detail_bytes (some d)) ≡ audit_detail_len)
      × (get_or (detail_bytes (some d)) 47 1 ≡ 0)
      × (take (min (length d) 47) (detail_bytes (some d)) ≡ take 47 d)
unfolding detail_bytes
detail_bytes_lem d = elim (Bool-cases (leb 48 (length d))) [
  | inl long ↦
      rw (long, cut long) (padded 47 (take 47 d) (omega arith) (length-take 47 d ∙ cut' long))
  | inr short ↦
      rw (short, all short, take_all (length d) d (omega arith), take_all 47 d (ground arith))
        (padded (length d) d (ground arith) refl)
]
  where
    cut : leb 48 (length d) ≡ true → min (length d) 47 ≡ 47
    cut h = ground arith

    cut' : leb 48 (length d) ≡ true → min 47 (length d) ≡ 47
    cut' h = ground arith

    all : leb 48 (length d) ≡ false → min (length d) 47 ≡ length d
    all h = ground arith
