-- ===== src/Arch/Elf/Stack.antt =====
-- The stack pointer that a program of kernel/arch/elf.c starts with.
use open_asd.Prelude.{
  ℕ, ◌+◌, ◌*◌, ◌%◌, ◌≡◌, sym, ap, ◌∙◌, inl, inr, Bool, false, none, some, List, [], ◌∷◌, arith, Rc,
  ok, fail, ◌==◌, ==_iff, Bool-cases, length, take, if◌then◌else◌,
}
use open_asd.Prelude.Find.{on_some-eq-some}
use open_asd.Arch.Elf.{
  user_stack_top, Memory, Pushed, sub64, when_ok, vm_copy_to_user, bytes_of_u64, push_user_u64,
  push_words, push_padding, align16, push_strings, push_vectors, build_user_stack_vm,
}

abbrev sp_of : Pushed → ℕ
sp_of none = 0
sp_of (some s) = s.0

when_ok-sp : (sp : ℕ) (r : Rc × Memory) (t : ℕ × Memory) → when_ok sp r ≡ some t → t.0 ≡ sp
when_ok-sp sp (ok, mem) t e = sym (ap sp_of e)
when_ok-sp sp (fail, mem) t e = cc

module _ (mapped : ℕ → Bool) where
  -- A word takes 8 bytes.
  push_user_u64-mod :
      (v : ℕ) (s t : ℕ × Memory) → push_user_u64 mapped v s ≡ some t → t.0 % 16 ≡ (s.0 + 8) % 16
  unfolding push_user_u64
  push_user_u64-mod v s t e = omega (
    arith,
    when_ok-sp (sub64 s.0 8) (vm_copy_to_user mapped (sub64 s.0 8) (bytes_of_u64 v) s.1) t e,
  )

  push_words-mod :
      (ws : List ℕ) (s t : ℕ × Memory)
      → push_words mapped ws s ≡ some t
      → t.0 % 16 ≡ (s.0 + 8 * length ws) % 16
  unfolding push_words
  push_words-mod [] s t e = omega (arith, ap sp_of e)
  push_words-mod (w ∷ ws) s t e =
      let (m, first, last) =
        on_some-eq-some (push_words mapped ws s) (push_user_u64 mapped w) t e in
      omega (arith, push_words-mod ws s m first, push_user_u64-mod w m t last)

  push_padding-mod :
      (slots : ℕ) (s t : ℕ × Memory)
      → push_padding mapped slots s ≡ some t
      → t.0 % 16 ≡ (s.0 + 8 * (slots % 2)) % 16
  unfolding push_padding
  push_padding-mod slots s t e = elim (Bool-cases (slots % 2 == 0)) [
    | inl even ↦ omega (arith, (==_iff (slots % 2) 0).0 even, ap sp_of (branch even ∙ e))
    | inr odd ↦ omega (arith, odd_one odd, push_user_u64-mod 0 s t (branch odd ∙ e))
  ]
    where
      branch :
          {b : Bool}
          → (slots % 2 == 0) ≡ b
          → (if b then some s else push_user_u64 mapped 0 s) ≡ push_padding mapped slots s
      branch h = ap (λ c. if c then some s else push_user_u64 mapped 0 s) (sym h)

      odd_one : (slots % 2 == 0) ≡ false → slots % 2 ≡ 1
      odd_one h = ground arith

  push_vectors-mod :
      (envs args : List ℕ) (s t : ℕ × Memory)
      → push_vectors mapped envs args s ≡ some t
      → t.0 % 16 ≡ 0
  unfolding push_vectors
  push_vectors-mod envs args s t e =
      let (s1, pad, e1) =
        on_some-eq-some (push_padding mapped (length args + length envs + 3) (align16 s)) _ t e in
      let (s2, zero_env, e2) = on_some-eq-some (push_user_u64 mapped 0 s1) _ t e1 in
      let (s3, env_words, e3) = on_some-eq-some (push_words mapped envs s2) _ t e2 in
      let (s4, zero_arg, e4) = on_some-eq-some (push_user_u64 mapped 0 s3) _ t e3 in
      let (s5, arg_words, e5) = on_some-eq-some (push_words mapped args s4) _ t e4 in
      omega (
        arith,
        push_padding-mod (length args + length envs + 3) (align16 s) s1 pad,
        push_user_u64-mod 0 s1 s2 zero_env,
        push_words-mod envs s2 s3 env_words,
        push_user_u64-mod 0 s3 s4 zero_arg,
        push_words-mod args s4 s5 arg_words,
        push_user_u64-mod (length args) s5 t e5,
      )

  -- When `build_user_stack_vm` succeeds, the stack pointer of the new program is a multiple of 16,
  -- whatever its arguments and environment are.
  pub build_user_stack_vm-aligned :
      (argv envp : List (List ℕ)) (mem : Memory) (t : ℕ × Memory)
      → build_user_stack_vm mapped argv envp mem ≡ some t
      → t.0 % 16 ≡ 0
  unfolding build_user_stack_vm
  build_user_stack_vm-aligned argv envp mem t e =
      let (env, strings, e1) =
        on_some-eq-some (push_strings mapped (take 63 envp) (user_stack_top, mem)) _ t e in
      let (arg, more, e2) = on_some-eq-some (push_strings mapped (take 63 argv) env.1) _ t e1 in
      push_vectors-mod env.0 arg.0 arg.1 t e2
