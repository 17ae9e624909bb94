-- ===== src/Elf/Load.antt =====
-- kernel/elf_loader.cpp: what a load that succeeds has tested and allocated.
use Prim.Native.Nat.{bit_and}
use sabaka_os.Common.{
  ◌-◌, ◌≢◌, ℕ, zero, suc, ◌+◌, ◌≤◌, ◌<◌, ◌≡◌, refl, Bool, true, false, not, ltb, ◌==◌, ◌&&◌, ◌||◌,
  if◌then◌else◌, arith, Bool-cases, inl, inr, for_range_inv,
}
use sabaka_os.Common.Words.{add32, sub32}
use sabaka_os.Elf.{
  le16, le32, pt_load, Elf32Phdr, ElfLoadResult, read_header, phdr, align_down, align_up, skipped,
  extend, span, page_flags, load_segment, load_loop, is_bad, no_result, elf_load,
}
use sabaka_os.Elf.Span.{Fits32, page_start, align_down-page_start, segment_up}

-- What a round of the second loop has tested, in its own arithmetic, which wraps.
unfoldable was_loaded : (ℕ → ℕ → ℕ → Bool) → ℕ → Elf32Phdr → Bool
was_loaded alloc size ph =
    skipped ph
    || (alloc (align_down ph.p_vaddr)
          (sub32 (align_up (add32 ph.p_vaddr ph.p_memsz)) (align_down ph.p_vaddr)) (page_flags ph)
        && (ph.p_filesz == 0 || not (ltb size (add32 ph.p_offset ph.p_filesz))))

was_loaded-load_segment :
    (alloc : ℕ → ℕ → ℕ → Bool) (file : ℕ → ℕ) (size : ℕ) (ph : Elf32Phdr) (mem : ℕ → ℕ)
    → (load_segment alloc file size ph mem).1 ≡ true
    → was_loaded alloc size ph ≡ true
unfolding load_segment was_loaded
was_loaded-load_segment alloc file size ph mem h = ground arith

load_loop_on :
    (b : Bool) (x y : (ℕ → ℕ) × Bool)
    → y.1 ≡ false
    → (if b then x else y).1 ≡ true
    → (b ≡ true) × (x.1 ≡ true)
load_loop_on true x y f h = (refl, h)
load_loop_on false x y f h = absurd (cc)

was_loaded-load_loop :
    (alloc : ℕ → ℕ → ℕ → Bool) (file : ℕ → ℕ) (size i n : ℕ) (mem : ℕ → ℕ)
    → (load_loop alloc file size i n mem).1 ≡ true
    → (j : ℕ) → i ≤ j
    → j < i + n
    → was_loaded alloc size (phdr file j) ≡ true
unfolding load_loop
was_loaded-load_loop alloc file size i zero mem h j a b = absurd (omega arith)
was_loaded-load_loop alloc file size i (suc n) mem h j a b =
    let (mem', goes_on) = load_segment alloc file size (phdr file i) mem in
    let (here, rest) =
      load_loop_on goes_on (load_loop alloc file size (i + 1) n mem') (mem', false) refl h in
    elim (Bool-cases (j == i)) [
      | inl e ↦
          let e' : j ≡ i = ground arith in
          rw e' (was_loaded-load_segment alloc file size (phdr file i) mem here)
      | inr ne ↦
          was_loaded-load_loop alloc file size (i + 1) n mem' rest j (ground arith) (omega arith)
    ]

loaded_ok :
    (a b : Bool) (x y : (ℕ → ℕ) × ElfLoadResult) (z : (ℕ → ℕ) × ElfLoadResult)
    → x.1.ok ≡ false
    → y.1.ok ≡ false
    → (if a then x else if b then y else z).1.ok ≡ true
    → (a ≡ false) × (z.1.ok ≡ true)
loaded_ok true b x y z p q h = absurd (cc)
loaded_ok false true x y z p q h = absurd (cc)
loaded_ok false false x y z p q h = (refl, h)

ok-span : (file : ℕ → ℕ) (res : ElfLoadResult) → (span file res).ok ≡ res.ok
unfolding span extend
ok-span file res =
    for_range_inv (λ k r. r.ok ≡ res.ok) (λ i r. extend (phdr file i) r) 0
      (read_header file).e_phnum (λ k r a b h. ok_round k r h) (read_header file).e_phnum 0 res
      (omega arith) (omega arith) refl
  where
    ok_round : (k : ℕ) (r : ElfLoadResult) → r.ok ≡ res.ok → (extend (phdr file k) r).ok ≡ res.ok
    ok_round k r h = ground arith

ok_if :
    (b : Bool) (r : ElfLoadResult) (e : ℕ)
    → r.ok ≡ false
    → (if b then record r { ok = true; entry = e } else r).ok ≡ true
    → b ≡ true
ok_if true r e f h = refl
ok_if false r e f h = absurd (cc)

was_loaded-elf_load :
    (alloc : ℕ → ℕ → ℕ → Bool) (file : ℕ → ℕ) (size : ℕ) (mem : ℕ → ℕ) (j : ℕ)
    → (elf_load alloc file size mem).1.ok ≡ true
    → j < (read_header file).e_phnum
    → ((ltb size 52 || is_bad file size) ≡ false) × (was_loaded alloc size (phdr file j) ≡ true)
unfolding elf_load
was_loaded-elf_load alloc file size mem j h l =
    let res = span file no_result in
    let off : res.ok ≡ false = ok-span file no_result in
    let n = (read_header file).e_phnum in
    let (good, done) =
      loaded_ok (ltb size 52 || is_bad file size) (res.load_base == 0xFFFFFFFF) (mem, no_result)
        (mem, res) _ refl off h in
    (
      good,
      was_loaded-load_loop alloc file size 0 n mem
          (ok_if (load_loop alloc file size 0 n mem).1 res (read_header file).e_entry off done) j
          (omega arith) (omega arith),
    )

-- The first 52 bytes are a header of a program for the machine.
pub record IsProgram (file : ℕ → ℕ) (size : ℕ) : Type 0 where
  pub has_header : 52 ≤ size
  pub magic : le32 file 0 ≡ 0x464C457F
  pub executable : le16 file 16 ≡ 2
  pub i386 : le16 file 18 ≡ 3
  pub some_segment : le16 file 44 ≢ 0

-- The pages of a segment, from that of its first byte to that of its last, were allocated, for
-- writing exactly where the segment is to be written, and its bytes lie in the file.
pub record Loaded (alloc : ℕ → ℕ → ℕ → Bool) (size : ℕ) (ph : Elf32Phdr) : Type 0 where
  pub allocated :
      alloc
        (page_start ph.p_vaddr)
        (page_start (ph.p_vaddr + ph.p_memsz + 4095) - page_start ph.p_vaddr)
        (if bit_and ph.p_flags 2 == 0 then 5 else 7)
      ≡ true
  pub in_file : ph.p_filesz ≢ 0 → ph.p_offset + ph.p_filesz ≤ size

is_bad-IsProgram :
    (file : ℕ → ℕ) (size : ℕ) → (ltb size 52 || is_bad file size) ≡ false → IsProgram file size
unfolding is_bad read_header
is_bad-IsProgram file size h = record {
  has_header = ground arith;
  magic = ground arith;
  executable = ground arith;
  i386 = ground arith;
  some_segment = ground arith;
}

was_loaded-Loaded :
    (alloc : ℕ → ℕ → ℕ → Bool) (size : ℕ) (ph : Elf32Phdr)
    → was_loaded alloc size ph ≡ true
    → ph.p_type ≡ pt_load
    → ph.p_memsz ≢ 0
    → Fits32 ph
    → ph.p_offset + ph.p_filesz < 4294967296
    → Loaded alloc size ph
unfolding was_loaded
was_loaded-Loaded alloc size ph h t m w f =
    let down = align_down-page_start ph.p_vaddr (omega arith) in
    let up = segment_up ph w in
    let len : sub32 (align_up (add32 ph.p_vaddr ph.p_memsz)) (align_down ph.p_vaddr)
        ≡ page_start (ph.p_vaddr + ph.p_memsz + 4095) - page_start ph.p_vaddr =
      omega (arith, down, up) in
    record { allocated = ground (arith, down, len); in_file = λ n. ground arith }

-- A load that succeeds was of a file with the header of an executable for the i386 and at least one
-- program header, and each segment to be loaded had its pages allocated, for writing exactly where
-- its flags say so, and its bytes in the file: where its addresses, rounded up to pages, and the end
-- of its bytes in the file stay below 2 ^ 32.
pub elf_load-Loaded :
    (alloc : ℕ → ℕ → ℕ → Bool) (file : ℕ → ℕ) (size : ℕ) (mem : ℕ → ℕ) (j : ℕ)
    → (elf_load alloc file size mem).1.ok ≡ true
    → j < (read_header file).e_phnum
    → (phdr file j).p_type ≡ pt_load
    → (phdr file j).p_memsz ≢ 0
    → Fits32 (phdr file j)
    → (phdr file j).p_offset + (phdr file j).p_filesz < 4294967296
    → IsProgram file size × Loaded alloc size (phdr file j)
elf_load-Loaded alloc file size mem j h l t m w f =
    let (good, done) = was_loaded-elf_load alloc file size mem j h l in
    (is_bad-IsProgram file size good, was_loaded-Loaded alloc size (phdr file j) done t m w f)
