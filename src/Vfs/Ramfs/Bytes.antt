-- ===== src/Vfs/Ramfs/Bytes.antt =====
-- Writing to and reading from an open file of kernel/vfs/ramfs.c, on the bytes that its entry holds.
use open_asd.Prelude.{
  ℕ, zero, suc, ◌+◌, ◌-◌, ◌%◌, ◌^◌, ◌≤◌, ◌<◌, min, ◌≡◌, refl, sym, ap, ◌∙◌, inl, inr, true, false,
  ◌&&◌, Option, none, some, List, [], ◌∷◌, ◌++◌, arith, ltb, leb, leb→le, Bool-cases, length, set,
  length-append, take, drop, length-take, length-drop, take-append_left, take_all, if◌then◌else◌,
}
use mathlib.Core.Path.{subst, ap₂}
use open_asd.Prelude.Int.{pos}
use open_asd.Prelude.Window.{get_or-set_self}
use open_asd.Vfs.Ramfs.{
  Entry, File, null_entry, entry_at, bytes_of, copy_over, copy_in, no_space, write_at, grow,
  ramfs_read, ramfs_write,
}

-- The bytes of an entry.
abbrev pub contents : Entry → List ℕ
contents e = bytes_of e.buffer

abbrev pub IsStored : Entry → Type 0
IsStored e = length (contents e) ≡ e.size

-- The allocator finds memory for this one size: `n` bytes, or none at all for 0.
abbrev pub HasMemory : (ℕ → Option (List ℕ)) → ℕ → Type 0
HasMemory kmalloc n = length (bytes_of (kmalloc n)) ≡ n

found_memory :
    (o : Option (List ℕ)) (n : ℕ)
    → length (bytes_of o) ≡ n
    → 0 < n
    → (buf : List ℕ) × (o ≡ some buf) × (length buf ≡ n)
found_memory none n e l = absurd (omega arith)
found_memory (some buf) n e l = (buf, refl, e)

take_append : (n : ℕ) (xs ys : List ℕ) → n ≤ length xs → take n (xs ++ ys) ≡ take n xs
take_append zero xs ys l = refl
take_append (suc n) [] ys l = absurd (omega arith)
take_append (suc n) (x ∷ xs) ys l = ap (λ t. x ∷ t) (take_append n xs ys (omega arith))

pub drop_all : (n : ℕ) (xs : List ℕ) → length xs ≤ n → drop n xs ≡ []
drop_all zero [] l = refl
drop_all zero (x ∷ xs) l = absurd (omega arith)
drop_all (suc n) [] l = refl
drop_all (suc n) (x ∷ xs) l = drop_all n xs (omega arith)

drop-take : (n : ℕ) (xs ys : List ℕ) → n ≤ length xs → drop n (take n xs ++ ys) ≡ ys
drop-take zero xs ys l = refl
drop-take (suc n) [] ys l = absurd (omega arith)
drop-take (suc n) (x ∷ xs) ys l = drop-take n xs ys (omega arith)

nothing_written :
    (offset : ℕ) (bytes : List ℕ) → offset + length bytes ≤ 0 → [] ≡ write_at offset bytes []
unfolding write_at
nothing_written zero [] l = refl
nothing_written zero (x ∷ bytes) l = absurd (omega arith)
nothing_written (suc offset) bytes l = absurd (omega arith)

module _ (offset : ℕ) (bytes : List ℕ) where
  length-write_at :
      (old : List ℕ)
      → offset ≤ length old
      → length (write_at offset bytes old)
        ≡ offset + length bytes + (length old - (offset + length bytes))
  unfolding write_at
  length-write_at old l = omega (
    arith,
    length-append (take offset old) (bytes ++ drop (offset + length bytes) old),
    length-append bytes (drop (offset + length bytes) old),
    length-take offset old,
    length-drop (offset + length bytes) old,
  )

  read-write_at :
      (old : List ℕ)
      → offset ≤ length old
      → take (length bytes) (drop offset (write_at offset bytes old)) ≡ bytes
  unfolding write_at
  read-write_at old l =
      ap (take (length bytes)) (drop-take offset old (bytes ++ drop (offset + length bytes) old) l)
      ∙ take-append_left (length bytes) bytes (drop (offset + length bytes) old) refl

  -- In a longer buffer, whose further bytes are written over.
  write_at-longer :
      (old buf : List ℕ)
      → offset ≤ length old
      → length old ≤ offset + length bytes
      → length buf ≡ offset + length bytes
      → write_at offset bytes (copy_over old buf) ≡ write_at offset bytes old
  unfolding write_at
  write_at-longer old buf l over e =
      rw
        (
          take_append offset old (drop (length old) buf) l,
          drop_all (offset + length bytes) (copy_over old buf) fits,
          drop_all (offset + length bytes) old over,
        )
        refl
    where
      fits : length (copy_over old buf) ≤ offset + length bytes
      fits = omega (arith, length-append old (drop (length old) buf), length-drop (length old) buf)

  -- A null buffer is written to only where nothing is.
  write_at-some :
      (b : Option (List ℕ))
      → offset + length bytes ≤ length (bytes_of b)
      → bytes_of (elim b [ none ↦ none | some buf ↦ some (write_at offset bytes buf) ])
        ≡ write_at offset bytes (bytes_of b)
  unfolding write_at
  write_at-some (some buf) l = refl
  write_at-some none l = nothing_written offset bytes l

  -- The entry as `ramfs_write` leaves it.
  abbrev written : Entry → Entry
  written e = record e {
    buffer = elim e.buffer [ none ↦ none | some buf ↦ some (write_at offset bytes buf) ];
  }

  grow-written :
      (kmalloc : ℕ → Option (List ℕ)) (e : Entry)
      → (e.size < offset + length bytes → HasMemory kmalloc (offset + length bytes))
      → IsStored e
      → offset ≤ e.size
      → (e' : Entry) × (grow kmalloc (offset + length bytes) e ≡ some e')
        × (contents (written e') ≡ write_at offset bytes (contents e))
        × IsStored (written e')
        × (offset + length bytes ≤ e'.size)
  unfolding grow
  grow-written kmalloc e memory stored l = elim (Bool-cases (leb (offset + length bytes) e.size)) [
    | inl fits ↦
        let inside = leb→le (offset + length bytes) e.size fits in
        let same = write_at-some e.buffer (omega arith) in
        (
          e,
          rw fits refl,
          same,
          omega (arith, ap length same, length-write_at (contents e) (omega arith)),
          inside,
        )
    | inr more ↦
        let (buf, found, long) =
          found_memory (kmalloc (offset + length bytes)) (offset + length bytes)
            (memory (longer more)) (omega (arith, longer more)) in
        let same = write_at-longer (contents e) buf (omega arith) (over more) long in
        (
          record e { buffer = some (copy_over (contents e) buf); size = offset + length bytes },
          rw (more, found, take_all e.size (contents e) (omega arith)) refl,
          same,
          omega (arith, ap length same, length-write_at (contents e) (omega arith), over more),
          omega arith,
        )
  ]
    where
      longer : leb (offset + length bytes) e.size ≡ false → e.size < offset + length bytes
      longer more = ground arith

      over :
          leb (offset + length bytes) e.size ≡ false → length (contents e) ≤ offset + length bytes
      over more = ground arith

nil_of_length : (bytes : List ℕ) → length bytes ≤ 0 → [] ≡ bytes
nil_of_length [] l = refl
nil_of_length (x ∷ bytes) l = absurd (omega arith)

-- A read of bytes that are all there.
read_all :
    (f : File) (bytes : List ℕ) (fs : List Entry)
    → f.offset + length bytes ≤ (entry_at f.entry fs).size
    → take (length bytes) (drop f.offset (contents (entry_at f.entry fs))) ≡ bytes
    → ramfs_read f (length bytes) fs ≡ (bytes, record f { offset = f.offset + length bytes })
unfolding ramfs_read
read_all f bytes fs l e = elim (Bool-cases (leb (entry_at f.entry fs).size f.offset)) [
  | inl eof ↦ rw eof (
      ap₂ (λ (b : List ℕ) (o : ℕ). (b, record f { offset = o })) (nil_of_length bytes (at_end eof))
        (omega (arith, at_end eof)))
  | inr more ↦ rw (more, whole, e) refl
]
  where
    at_end : leb (entry_at f.entry fs).size f.offset ≡ true → length bytes ≤ 0
    at_end eof = ground arith

    whole : min (length bytes) ((entry_at f.entry fs).size - f.offset) ≡ length bytes
    whole = omega arith

module _ (kmalloc : ℕ → Option (List ℕ)) (f : File) (bytes : List ℕ) (fs : List Entry)
    (memory : (entry_at f.entry fs).size < f.offset + length bytes
      → HasMemory kmalloc (f.offset + length bytes))
    (here : f.entry < length fs) (stored : IsStored (entry_at f.entry fs))
    (inside : f.offset ≤ (entry_at f.entry fs).size)
    (range : f.offset + length bytes < 2 ^ 64) where
  -- A write at an offset inside the file succeeds, when there is memory for the new size if the file
  -- grows: the bytes replace those from
  -- the offset on and extend the file where they reach beyond its end, the entry's size stays the
  -- number of its bytes, no other entry changes, and a read at the old offset of as many bytes
  -- gives the bytes written.
  pub write-read :
      (fs' : List Entry) × (ramfs_write kmalloc f bytes fs
        ≡ (pos 0, record f { offset = f.offset + length bytes }, fs'))
      × (contents (entry_at f.entry fs') ≡ write_at f.offset bytes (contents (entry_at f.entry fs)))
      × IsStored (entry_at f.entry fs')
      × (fs' ≡ set fs f.entry (entry_at f.entry fs'))
      × (ramfs_read f (length bytes) fs' ≡ (bytes, record f { offset = f.offset + length bytes }))
  unfolding ramfs_write
  write-read =
      let e = entry_at f.entry fs in
      let (e', grown, same, good, long) =
        grow-written f.offset bytes kmalloc e memory stored inside in
      let there = get_or-set_self fs f.entry (written f.offset bytes e') null_entry here in
      (
        set fs f.entry (written f.offset bytes e'),
        ap
              (λ n.
                if ltb 0 (length bytes) && ltb n f.offset
                then (no_space, f, fs)
                else copy_in f bytes n fs (grow kmalloc n e))
              end_of_64
            ∙ ap
                (λ b.
                  if b
                  then (no_space, f, fs)
                  else copy_in f bytes (f.offset + length bytes) fs
                      (grow kmalloc (f.offset + length bytes) e))
                no_wrap
            ∙ ap (copy_in f bytes (f.offset + length bytes) fs) grown,
        ap contents there ∙ same,
        subst IsStored (sym there) good,
        ap (set fs f.entry) (sym there),
        read_all f bytes (set fs f.entry (written f.offset bytes e'))
            (omega (arith, ap (λ (x : Entry). x.size) there))
            (ap (λ t. take (length bytes) (drop f.offset t)) (ap contents there ∙ same)
              ∙ read-write_at f.offset bytes (contents e) (omega arith)),
      )
    where
      end_of_64 : (f.offset + length bytes) % 2 ^ 64 ≡ f.offset + length bytes
      end_of_64 = omega arith

      no_wrap : (ltb 0 (length bytes) && ltb (f.offset + length bytes) f.offset) ≡ false
      no_wrap = ground arith
