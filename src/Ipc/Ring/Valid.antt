-- ===== src/Ipc/Ring/Valid.antt =====
-- The representation invariant of a ring buffer, and what keeps it.
use open_asd.Prelude.{
  ℕ, zero, suc, ◌-◌, ◌%◌, ◌^◌, ◌≤◌, ◌<◌, ◌∣◌, bit_and, ◌≡◌, refl, ◌∙◌, ◌↔◌, inl, inr, Bool, true,
  some, List, [], ◌∷◌, arith, ltb, ◌==◌, Bool-cases, length, set, length-append, length-set, get_or,
  take, drop, replicate, length-take, length-drop, length-replicate,
}
use native.Mathlib.Nat.{mod-lt, mod-mod_of_dvd}
use native.Mathlib.Decide.{dec_lt}
use open_asd.Prelude.Bits.{
  bit_and_mask, pow2_of_bit_and, bit_and-pow2, pow_pos, pow2-dvd, pow2-lt, pow2-le,
}
use open_asd.Ipc.Ring.{
  Ring, Slot, is_pow2, fresh, init, valid, sub64, slot_index, copy_in, write_slot, push, pop,
}

-- Every slot is `n` bytes long.
abbrev pub AllSized : ℕ → List Slot → Type 0
AllSized n [] = Unit {0}
AllSized n (s ∷ ss) = (length s ≡ n) × AllSized n ss

-- The buffer holds at most `slot_count` slots, a power of 2 that fits in 32 bits.
pub record IsValid (rb : Ring) : Type 0 where
  pub order : ℕ
  pub order_lt : order < 32
  pub count_pow : rb.slot_count ≡ 2 ^ order
  pub length_slots : length rb.slots ≡ rb.slot_count
  pub sized : AllSized rb.slot_size rb.slots
  pub write_lt : rb.write_idx < 2 ^ 64
  pub read_lt : rb.read_idx < 2 ^ 64
  pub held_le : sub64 rb.write_idx rb.read_idx ≤ rb.slot_count

-- `is_pow2` decides the powers of 2.
pub is_pow2_iff : (n : ℕ) → (is_pow2 n ≡ true) ↔ ((k : ℕ) × (n ≡ 2 ^ k))
unfolding is_pow2
is_pow2_iff n = (to, from)
  where
    nz : is_pow2 n ≡ true → (0 < n) × (bit_and n (n - 1) ≡ 0)
    nz h = ground arith

    to : is_pow2 n ≡ true → (k : ℕ) × (n ≡ 2 ^ k)
    to h = let (p, e) = nz h in pow2_of_bit_and n p e

    from : (k : ℕ) × (n ≡ 2 ^ k) → is_pow2 n ≡ true
    from (k, e) = ground (arith, pow_pos k, bit_and-pow2 k)

module _ {rb : Ring} (v : IsValid rb) where
  pub count_pos : 0 < rb.slot_count
  count_pos = omega (arith, v.count_pow, pow_pos v.order)

  pub count_dvd : rb.slot_count ∣ 2 ^ 64
  count_dvd = rw v.count_pow (pow2-dvd v.order 64 (omega arith))

  pub count_lt : rb.slot_count < 2 ^ 32
  count_lt = rw v.count_pow (pow2-lt v.order 32 v.order_lt)

  -- The mask of the code is the remainder of the index.
  pub slot_index-eq-mod : (idx : ℕ) → slot_index rb idx ≡ idx % rb.slot_count
  unfolding slot_index
  slot_index-eq-mod idx = rw v.count_pow (bit_and_mask v.order idx)

  -- Wrapping at 2 ^ 64 does not change the slot.
  pub mod_wrap : (idx : ℕ) → idx % 2 ^ 64 % rb.slot_count ≡ idx % rb.slot_count
  mod_wrap idx = mod-mod_of_dvd rb.slot_count idx count_dvd

  pub slot_index-lt : (idx : ℕ) → slot_index rb idx < length rb.slots
  slot_index-lt idx = rw (slot_index-eq-mod idx, v.length_slots) (mod-lt idx count_pos)

pub AllSized-set :
    (n i : ℕ) (s : Slot) (ss : List Slot) → length s ≡ n → AllSized n ss → AllSized n (set ss i s)
AllSized-set n i s [] e h = tt
AllSized-set n zero s (t ∷ ss) e h = (e, h.1)
AllSized-set n (suc i) s (t ∷ ss) e h = (h.0, AllSized-set n i s ss e h.1)

pub AllSized-get_or :
    (n i : ℕ) (ss : List Slot) → AllSized n ss → i < length ss → length (get_or ss i []) ≡ n
AllSized-get_or n i [] h lt = absurd (omega arith)
AllSized-get_or n zero (s ∷ ss) h lt = h.0
AllSized-get_or n (suc i) (s ∷ ss) h lt = AllSized-get_or n i ss h.1 (omega arith)

pub AllSized-replicate : (n k : ℕ) → AllSized n (replicate k (replicate n 0))
AllSized-replicate n zero = tt
AllSized-replicate n (suc k) = (length-replicate n 0, AllSized-replicate n k)

pub length-copy_in :
    (n size : ℕ) (src slot : List ℕ)
    → length slot ≡ n
    → size ≤ n
    → size ≤ length src
    → length (copy_in size src slot) ≡ n
unfolding copy_in
length-copy_in n size src slot e p q =
    length-append (take size src) (drop size slot)
    ∙ omega (arith, length-take size src, length-drop size slot)

pub length-write_slot :
    (rb : Ring) (idx : ℕ) (src : List ℕ) (size : ℕ)
    → length (write_slot rb idx src size) ≡ length rb.slots
unfolding write_slot
length-write_slot rb idx src size = length-set rb.slots _ _

pub AllSized-write_slot :
    {rb : Ring} (v : IsValid rb) (idx : ℕ) (src : List ℕ) (size : ℕ)
    → size ≤ rb.slot_size
    → size ≤ length src
    → AllSized rb.slot_size (write_slot rb idx src size)
unfolding write_slot
AllSized-write_slot {rb} v idx src size p q =
    AllSized-set rb.slot_size (slot_index rb idx) _ rb.slots
      (length-copy_in rb.slot_size size src _
        (AllSized-get_or rb.slot_size (slot_index rb idx) rb.slots v.sized (slot_index-lt v idx)) p
        q)
      v.sized

init_cases :
    (mem : Bool) (slot_size slot_count : ℕ) {rb : Ring}
    → init mem slot_size slot_count ≡ some rb
    → (mem ≡ true)
      × (is_pow2 slot_size ≡ true)
      × (8 ≤ slot_size)
      × (is_pow2 slot_count ≡ true)
      × (2 ≤ slot_count)
      × (rb ≡ fresh slot_size slot_count)
unfolding init
init_cases mem slot_size slot_count h = ground arith

fresh-IsValid : (slot_size order : ℕ) → order < 32 → IsValid (fresh slot_size (2 ^ order))
unfolding fresh
fresh-IsValid slot_size order lt = record {
  order = order;
  order_lt = lt;
  count_pow = refl;
  length_slots = length-replicate (2 ^ order) _;
  sized = AllSized-replicate slot_size (2 ^ order);
  write_lt = omega arith;
  read_lt = omega arith;
  held_le = omega arith;
}

pow2-lt-cancel : (k m : ℕ) → 2 ^ k < 2 ^ m → k < m
pow2-lt-cancel k m h = elim (dec_lt k m) [
  | yes p ↦ p
  | no p ↦ absurd (omega (arith, pow2-le m k (omega arith)))
]

-- A buffer that `ringbuf_init` returns satisfies the invariant and `ringbuf_valid`, and holds
-- nothing; its slots are at least 8 bytes and it has at least 2.
pub init-IsValid :
    (mem : Bool) (slot_size slot_count : ℕ) {rb : Ring}
    → slot_count < 2 ^ 32
    → init mem slot_size slot_count ≡ some rb
    → IsValid rb
      × (valid rb ≡ true)
      × (sub64 rb.write_idx rb.read_idx ≡ 0)
      × (8 ≤ rb.slot_size)
      × (2 ≤ rb.slot_count)
unfolding valid fresh
init-IsValid mem slot_size slot_count lt h =
    let (_, a, b, c, d, e) = init_cases mem slot_size slot_count h in
    let (k, q) = (is_pow2_iff slot_count).0 c in
    rw (e, q)
      (
        fresh-IsValid slot_size k (pow2-lt-cancel k 32 (rw q at lt)),
        ground (arith, rw q at c),
        omega arith,
        b,
        rw q at d,
      )

-- `ringbuf_init` accepts memory that is not null with every pair of powers of 2 from 8 bytes and 2 slots
-- on, and nothing else.
pub init-eq-some_iff :
    (mem : Bool) (slot_size slot_count : ℕ)
    → (init mem slot_size slot_count ≡ some (fresh slot_size slot_count)) ↔ (
        (mem ≡ true)
        × ((j : ℕ) × (slot_size ≡ 2 ^ j))
        × (8 ≤ slot_size)
        × ((k : ℕ) × (slot_count ≡ 2 ^ k))
        × (2 ≤ slot_count))
init-eq-some_iff mem slot_size slot_count = (
  λ h.
      let (m, a, b, c, d, _) = init_cases mem slot_size slot_count h in
      (m, (is_pow2_iff slot_size).0 a, b, (is_pow2_iff slot_count).0 c, d),
  λ h. from h.0 ((is_pow2_iff slot_size).1 h.1) h.2 ((is_pow2_iff slot_count).1 h.3) h.4,
)
  where
    from :
        mem ≡ true
        → is_pow2 slot_size ≡ true
        → 8 ≤ slot_size
        → is_pow2 slot_count ≡ true
        → 2 ≤ slot_count
        → init mem slot_size slot_count ≡ some (fresh slot_size slot_count)
    from m a b c d = unfold init in ground arith

-- A push of at most the bytes given keeps the invariant.
pub push-IsValid :
    {rb : Ring} (src : List ℕ) (size : ℕ)
    → IsValid rb
    → size ≤ length src
    → IsValid (push rb src size).1
unfolding push
push-IsValid {rb} src size v q =
    elim (Bool-cases (sub64 rb.write_idx rb.read_idx == rb.slot_count)) [
      | inl full ↦ rw full v
      | inr room ↦ elim (Bool-cases (ltb rb.slot_size size)) [
        | inl big ↦ rw (room, big) v
        | inr fits ↦
            rw (room, fits)
              (record {
                order = v.order;
                order_lt = v.order_lt;
                count_pow = v.count_pow;
                length_slots = length-write_slot rb rb.write_idx src size ∙ v.length_slots;
                sized = AllSized-write_slot v rb.write_idx src size (ground arith) q;
                write_lt = omega arith;
                read_lt = v.read_lt;
                held_le = ground arith;
              })
      ]
    ]

-- A pop keeps the invariant.
pub pop-IsValid : {rb : Ring} (size : ℕ) → IsValid rb → IsValid (pop rb size).2
unfolding pop
pop-IsValid {rb} size v = elim (Bool-cases (rb.read_idx == rb.write_idx)) [
  | inl empty ↦ rw empty v
  | inr held ↦ elim (Bool-cases (ltb rb.slot_size size)) [
    | inl big ↦ rw (held, big) v
    | inr fits ↦
        rw (held, fits)
          (record {
            order = v.order;
            order_lt = v.order_lt;
            count_pow = v.count_pow;
            length_slots = v.length_slots;
            sized = v.sized;
            write_lt = v.write_lt;
            read_lt = omega arith;
            held_le = ground arith;
          })
  ]
]
