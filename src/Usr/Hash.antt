-- ===== src/Usr/Hash.antt =====
-- kernel/usr/usr.c, `pw_hash_salted`: the salted and iterated password hash.
use open_asd.Prelude.{ℕ, zero, suc, ◌*◌, ◌/◌, ◌%◌, ◌^◌, bit_xor, Option, none, some, List, [], ◌∷◌}

abbrev pub fnv_offset : ℕ
fnv_offset = 14695981039346656037

abbrev pub fnv_prime : ℕ
fnv_prime = 1099511628211

-- `uint64_t` multiplication.
abbrev pub mul64 : ℕ → ℕ → ℕ
mul64 a b = a * b % 2 ^ 64

-- "Step 2": one byte of the password after the other.
unfoldable pub hash_bytes : ℕ → List ℕ → ℕ
hash_bytes h [] = h
hash_bytes h (c ∷ cs) = hash_bytes (mul64 (bit_xor h c) fnv_prime) cs

abbrev pub shift_mix : ℕ → ℕ
shift_mix h = bit_xor h (h / 2 ^ 33)

-- One of the "Murmur-style finalisation rounds".
unfoldable pub round : ℕ → ℕ
round h = shift_mix (mul64 (shift_mix (mul64 (shift_mix h) 0xff51afd7ed558ccd)) 0xc4ceb9fe1a85ec53)

unfoldable pub rounds : ℕ → ℕ → ℕ
rounds zero h = h
rounds (suc k) h = rounds k (round h)

-- A null password is the empty text.
unfoldable pub pw_hash_salted : Option (List ℕ) → ℕ → ℕ
pw_hash_salted pw salt =
    rounds 1024
      (hash_bytes (mul64 (bit_xor fnv_offset salt) fnv_prime) (elim pw [ none ↦ [] | some s ↦ s ]))
