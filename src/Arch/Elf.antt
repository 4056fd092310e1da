-- ===== src/Arch/Elf.antt =====
-- kernel/arch/elf.c: memory of a program, its first stack, and the loader. The user memory of a
-- program is a function from addresses to bytes; `mapped` says which pages `amm_virt_to_kva` finds, each
-- of them at memory of its own. An address is a number below 2^64.
pub mod Stack
pub mod Copy
pub mod Load
mod Tests
use open_asd.Prelude.{
  ℕ, zero, suc, ◌+◌, ◌-◌, ◌/◌, ◌%◌, ◌^◌, min, Bool, ◌&&◌, Option, none, some, List, [], ◌∷◌, ◌++◌,
  Rc, ok, fail, ltb, leb, ◌==◌, length, get_or, take, drop, replicate, if◌then◌else◌,
}
use open_asd.Prelude.Find.{on_some}

abbrev pub page_size : ℕ
page_size = 4096

abbrev pub user_stack_top : ℕ
user_stack_top = 0x00007FFF00000000

abbrev pub Memory : Type 0
Memory = ℕ → ℕ

unfoldable pub write_bytes : ℕ → List ℕ → Memory → Memory
write_bytes dst bytes mem a =
    if leb dst a && ltb a (dst + length bytes) then get_or bytes (a - dst) 0 else mem a

-- A turn copies what is left of a page, at least one byte.
unfoldable pub copy_from : ℕ → (ℕ → Bool) → ℕ → List ℕ → Memory → Rc × Memory
copy_from zero mapped dst src mem = (ok, mem)
copy_from (suc n) mapped dst src mem =
    let chunk = min (page_size - dst % page_size) (length src) in
    let rest =
      copy_from n mapped ((dst + chunk) % 2 ^ 64) (drop chunk src)
        (write_bytes dst (take chunk src) mem) in
    if length src == 0 then (ok, mem) else if mapped (dst / page_size) then rest else (fail, mem)

unfoldable pub vm_copy_to_user : (ℕ → Bool) → ℕ → List ℕ → Memory → Rc × Memory
vm_copy_to_user mapped dst src mem = copy_from (length src) mapped dst src mem

-- The same with zeros.
unfoldable pub zero_from : ℕ → (ℕ → Bool) → ℕ → ℕ → Memory → Rc × Memory
zero_from zero mapped dst len mem = (ok, mem)
zero_from (suc n) mapped dst len mem =
    let chunk = min (page_size - dst % page_size) len in
    let rest =
      zero_from n mapped ((dst + chunk) % 2 ^ 64) (len - chunk)
        (write_bytes dst (replicate chunk 0) mem) in
    if len == 0 then (ok, mem) else if mapped (dst / page_size) then rest else (fail, mem)

unfoldable pub vm_zero_user : (ℕ → Bool) → ℕ → ℕ → Memory → Rc × Memory
vm_zero_user mapped dst len mem = zero_from len mapped dst len mem

-- The stack pointer and the memory; none where `build_user_stack_vm` returns 0.
abbrev pub Pushed : Type 0
Pushed = Option (ℕ × Memory)

abbrev pub sub64 : ℕ → ℕ → ℕ
sub64 a b = (a + 2 ^ 64 - b % 2 ^ 64) % 2 ^ 64

abbrev pub when_ok : ℕ → Rc × Memory → Pushed
when_ok sp (ok, mem) = some (sp, mem)
when_ok sp (fail, mem) = none

-- The bytes of a `uint64_t`, the lowest first.
abbrev pub bytes_of_u64 : ℕ → List ℕ
bytes_of_u64 v =
    v % 2 ^ 8
    ∷ v / 2 ^ 8 % 2 ^ 8
    ∷ v / 2 ^ 16 % 2 ^ 8
    ∷ v / 2 ^ 24 % 2 ^ 8
    ∷ v / 2 ^ 32 % 2 ^ 8
    ∷ v / 2 ^ 40 % 2 ^ 8
    ∷ v / 2 ^ 48 % 2 ^ 8
    ∷ v / 2 ^ 56 % 2 ^ 8
    ∷ []

-- "user_sp &= ~15ULL"
abbrev pub align16 : ℕ × Memory → ℕ × Memory
align16 s = (s.0 - s.0 % 16, s.1)

module _ (mapped : ℕ → Bool) where
  unfoldable pub push_user_bytes : List ℕ → ℕ × Memory → Pushed
  push_user_bytes src s =
      when_ok (sub64 s.0 (length src)) (vm_copy_to_user mapped (sub64 s.0 (length src)) src s.1)

  unfoldable pub push_user_u64 : ℕ → ℕ × Memory → Pushed
  push_user_u64 val s =
      when_ok (sub64 s.0 8) (vm_copy_to_user mapped (sub64 s.0 8) (bytes_of_u64 val) s.1)

  -- "Copy envp strings" and "Copy argv strings", from the last to the first; a string is its bytes
  -- before the terminator. The addresses, and the stack.
  unfoldable pub push_strings : List (List ℕ) → ℕ × Memory → Option (List ℕ × (ℕ × Memory))
  push_strings [] s = some ([], s)
  push_strings (str ∷ strs) s =
      on_some (push_strings strs s)
        (λ r. on_some (push_user_bytes (str ++ (0 ∷ [])) r.1) (λ t. some (t.0 ∷ r.0, t)))

  -- Words, from the last to the first.
  unfoldable pub push_words : List ℕ → ℕ × Memory → Pushed
  push_words [] s = some s
  push_words (w ∷ ws) s = on_some (push_words ws s) (push_user_u64 w)

  -- The extra slot where the number of slots is odd.
  unfoldable pub push_padding : ℕ → ℕ × Memory → Pushed
  push_padding slots s = if slots % 2 == 0 then some s else push_user_u64 0 s

  -- From the alignment on: `envs` and `args` are the addresses of the strings.
  unfoldable pub push_vectors : List ℕ → List ℕ → ℕ × Memory → Pushed
  push_vectors envs args s =
      on_some (push_padding (length args + length envs + 3) (align16 s)) (λ s1.
        on_some (push_user_u64 0 s1) (λ s2. on_some (push_words envs s2) (λ s3.
          on_some (push_user_u64 0 s3)
            (λ s4. on_some (push_words args s4) (push_user_u64 (length args))))))

  -- A null vector is an empty one; at most 63 strings of each are taken.
  unfoldable pub build_user_stack_vm : List (List ℕ) → List (List ℕ) → Memory → Pushed
  build_user_stack_vm argv envp mem =
      on_some (push_strings (take 63 envp) (user_stack_top, mem))
        (λ e. on_some (push_strings (take 63 argv) e.1) (λ a. push_vectors e.0 a.0 a.1))
