-- ===== src/Arch/Elf/Copy.antt =====
-- `vm_copy_to_user` of kernel/arch/elf.c, page by page, as one copy.
use open_asd.Prelude.{
  ℕ, zero, suc, ◌+◌, ◌-◌, ◌/◌, ◌%◌, ◌^◌, ◌≤◌, ◌<◌, min, ◌≡◌, refl, sym, ap, ◌∙◌, ◌⊎◌, inl, inr,
  Bool, true, false, List, [], ◌∷◌, ◌++◌, arith, ok, ltb, leb, ◌==◌, lt→ltb, ==_iff, Bool-cases,
  length, length-append, get_or, take, drop, take-append-drop, length-take, length-drop,
  get_or-append_right, le→leb,
}
use mathlib.Core.Path.{fun_ext}
use open_asd.Arch.Elf.{Memory, page_size, write_bytes, copy_from, vm_copy_to_user}

get_or-append_left :
    (xs ys : List ℕ) (i : ℕ) → i < length xs → get_or (xs ++ ys) i 0 ≡ get_or xs i 0
get_or-append_left [] ys i l = absurd (omega arith)
get_or-append_left (x ∷ xs) ys zero l = refl
get_or-append_left (x ∷ xs) ys (suc i) l = get_or-append_left xs ys i (omega arith)

-- Inside and outside of what is written.
write_bytes-in :
    (dst : ℕ) (bytes : List ℕ) (mem : Memory) (a : ℕ)
    → dst ≤ a
    → a < dst + length bytes
    → write_bytes dst bytes mem a ≡ get_or bytes (a - dst) 0
unfolding write_bytes
write_bytes-in dst bytes mem a low high =
    rw (le→leb dst a low, lt→ltb a (dst + length bytes) high) refl

write_bytes-out :
    (dst : ℕ) (bytes : List ℕ) (mem : Memory) (a : ℕ)
    → (a < dst) ⊎ (dst + length bytes ≤ a)
    → write_bytes dst bytes mem a ≡ mem a
unfolding write_bytes
write_bytes-out dst bytes mem a (inl low) = rw below refl
  where
    below : leb dst a ≡ false
    below = ground arith
write_bytes-out dst bytes mem a (inr high) = rw (le→leb dst a (omega arith), above) refl
  where
    above : ltb a (dst + length bytes) ≡ false
    above = ground arith

lt_or_ge : (a b : ℕ) → (a < b) ⊎ (b ≤ a)
lt_or_ge a b = ground arith

write_nothing :
    (dst : ℕ) (bytes : List ℕ) (mem : Memory) → length bytes ≤ 0 → write_bytes dst bytes mem ≡ mem
write_nothing dst bytes mem l = fun_ext (λ a. write_bytes-out dst bytes mem a (outside a))
  where
    outside : (a : ℕ) → (a < dst) ⊎ (dst + length bytes ≤ a)
    outside a = ground arith

-- Two copies behind each other.
write_bytes-append :
    (dst : ℕ) (xs ys : List ℕ) (mem : Memory)
    → write_bytes (dst + length xs) ys (write_bytes dst xs mem) ≡ write_bytes dst (xs ++ ys) mem
write_bytes-append dst xs ys mem = fun_ext (λ a. at a)
  where
    all : length (xs ++ ys) ≡ length xs + length ys
    all = length-append xs ys

    at :
        (a : ℕ)
        → write_bytes (dst + length xs) ys (write_bytes dst xs mem) a
          ≡ write_bytes dst (xs ++ ys) mem a
    at a = elim (lt_or_ge a dst) [
      | inl low ↦
          write_bytes-out (dst + length xs) ys (write_bytes dst xs mem) a (inl (omega arith))
          ∙ write_bytes-out dst xs mem a (inl low)
          ∙ sym (write_bytes-out dst (xs ++ ys) mem a (inl low))
      | inr from ↦ elim (lt_or_ge a (dst + length xs)) [
        | inl first ↦
            write_bytes-out (dst + length xs) ys (write_bytes dst xs mem) a (inl first)
            ∙ write_bytes-in dst xs mem a from first
            ∙ sym (get_or-append_left xs ys (a - dst) (omega arith))
            ∙ sym (write_bytes-in dst (xs ++ ys) mem a from (omega (arith, all)))
        | inr second ↦ elim (lt_or_ge a (dst + length xs + length ys)) [
          | inl inside ↦
              write_bytes-in (dst + length xs) ys (write_bytes dst xs mem) a second inside
              ∙ ap (λ i. get_or ys i 0) (omega arith)
              ∙ sym (get_or-append_right xs ys (a - dst) 0 (omega arith))
              ∙ sym (write_bytes-in dst (xs ++ ys) mem a from (omega (arith, all)))
          | inr above ↦
              write_bytes-out (dst + length xs) ys (write_bytes dst xs mem) a (inr above)
              ∙ write_bytes-out dst xs mem a (inr second)
              ∙ sym (write_bytes-out dst (xs ++ ys) mem a (inr (omega (arith, all))))
        ]
      ]
    ]

-- Every page between the two addresses is there.
abbrev pub AllMapped : (ℕ → Bool) → ℕ → ℕ → Type 0
AllMapped mapped from to = (a : ℕ) → from ≤ a → a < to → mapped (a / page_size) ≡ true

copy_from-lem :
    (n : ℕ) (mapped : ℕ → Bool) (dst : ℕ) (src : List ℕ) (mem : Memory)
    → length src ≤ n
    → dst + length src < 2 ^ 64
    → AllMapped mapped dst (dst + length src)
    → copy_from n mapped dst src mem ≡ (ok, write_bytes dst src mem)
unfolding copy_from
copy_from-lem zero mapped dst [] mem l range there =
    ap (λ m. (ok, m)) (sym (write_nothing dst [] mem (omega arith)))
copy_from-lem zero mapped dst (x ∷ src) mem l range there = absurd (omega arith)
copy_from-lem (suc n) mapped dst src mem l range there = elim (Bool-cases (length src == 0)) [
  | inl done ↦ rw done (
      ap (λ m. (ok, m))
        (sym (write_nothing dst src mem (omega (arith, (==_iff (length src) 0).0 done)))))
  | inr more ↦
      rw (more, there dst (omega arith) (some_byte more))
        (turn (λ d b m. copy_from-lem n mapped d b m) more)
]
  where
    chunk : ℕ
    chunk = min (page_size - dst % page_size) (length src)

    some_byte : (length src == 0) ≡ false → dst < dst + length src
    some_byte more = ground arith

    next : (dst + chunk) % 2 ^ 64 ≡ dst + length (take chunk src)
    next = omega (arith, length-take chunk src)

    left : dst + length (take chunk src) + length (drop chunk src) ≡ dst + length src
    left = omega (arith, length-take chunk src, length-drop chunk src)

    turn :
        ((d : ℕ) (b : List ℕ) (m : Memory)
          → length b ≤ n
          → d + length b < 2 ^ 64
          → AllMapped mapped d (d + length b)
          → copy_from n mapped d b m ≡ (ok, write_bytes d b m))
        → (length src == 0) ≡ false
        → copy_from n mapped
            ((dst + chunk) % 2 ^ 64)
            (drop chunk src)
            (write_bytes dst (take chunk src) mem)
          ≡ (ok, write_bytes dst src mem)
    turn rest more =
        ap (λ d. copy_from n mapped d (drop chunk src) (write_bytes dst (take chunk src) mem)) next
        ∙ rest (dst + length (take chunk src)) (drop chunk src)
            (write_bytes dst (take chunk src) mem)
            (omega (arith, length-drop chunk src, some_byte more)) (omega (arith, left))
            (λ a low high. there a (omega arith) (omega (arith, left)))
        ∙ ap (λ m. (ok, m))
            (write_bytes-append dst (take chunk src) (drop chunk src) mem
              ∙ ap (λ b. write_bytes dst b mem) (take-append-drop chunk src))

-- When every page of the range is mapped and the range does not wrap, `vm_copy_to_user` succeeds and
-- has copied exactly the bytes, as one copy would: no other byte changes.
pub vm_copy_to_user_lem :
    (mapped : ℕ → Bool) (dst : ℕ) (src : List ℕ) (mem : Memory)
    → dst + length src < 2 ^ 64
    → AllMapped mapped dst (dst + length src)
    → vm_copy_to_user mapped dst src mem ≡ (ok, write_bytes dst src mem)
unfolding vm_copy_to_user
vm_copy_to_user_lem mapped dst src mem range there =
    copy_from-lem (length src) mapped dst src mem (omega arith) range there
