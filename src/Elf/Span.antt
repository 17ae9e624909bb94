-- ===== src/Elf/Span.antt =====
-- kernel/elf_loader.cpp: the span of a program, which the first loop computes.
use sabaka_os.Common.Masks.{bit_and_page}
use sabaka_os.Common.{
  ◌*◌, ◌/◌, ◌%◌, ◌∙◌, ap, ℕ, ◌+◌, ◌≤◌, ◌<◌, ◌≡◌, Bool, true, not, ltb, ◌==◌, ◌&&◌, ◌||◌, arith,
  Bool-cases, inl, inr, for_range_inv,
}
use sabaka_os.Common.Words.{add32}
use sabaka_os.Elf.{
  pt_load, Elf32Phdr, ElfLoadResult, read_header, phdr, align_down, align_up, skipped, extend, span,
}

-- What the first loop has seen to, in its own arithmetic, which wraps.
unfoldable in_span : Elf32Phdr → ElfLoadResult → Bool
in_span ph r =
    skipped ph
    || (not (ltb (align_down ph.p_vaddr) r.load_base)
        && not (ltb r.load_end (align_up (add32 ph.p_vaddr ph.p_memsz))))

in_span-extend :
    (ph qh : Elf32Phdr) (r : ElfLoadResult) → in_span ph r ≡ true → in_span ph (extend qh r) ≡ true
unfolding in_span extend
in_span-extend ph qh r h = ground arith

in_span-extend_self : (ph : Elf32Phdr) (r : ElfLoadResult) → in_span ph (extend ph r) ≡ true
unfolding in_span extend
in_span-extend_self ph r = ground arith

in_span-round :
    (file : ℕ → ℕ) (k : ℕ) (r : ElfLoadResult) (j : ℕ)
    → (j < k → in_span (phdr file j) r ≡ true)
    → j < k + 1
    → in_span (phdr file j) (extend (phdr file k) r) ≡ true
in_span-round file k r j h l = elim (Bool-cases (j == k)) [
  | inl e ↦ let e' : j ≡ k = ground arith in rw e' (in_span-extend_self (phdr file k) r)
  | inr ne ↦ in_span-extend (phdr file j) (phdr file k) r (h (ground arith))
]

in_span-span :
    (file : ℕ → ℕ) (res : ElfLoadResult) (j : ℕ)
    → j < (read_header file).e_phnum
    → in_span (phdr file j) (span file res) ≡ true
unfolding span
in_span-span file res j l =
    for_range_inv (λ k r. (j' : ℕ) → j' < k → in_span (phdr file j') r ≡ true)
      (λ i r. extend (phdr file i) r) 0 (read_header file).e_phnum
      (λ k r a b h j' l'. in_span-round file k r j' (h j') l') (read_header file).e_phnum 0 res
      (omega arith) (omega arith) (λ j' l'. absurd (omega arith)) j l

-- The addresses of the segment, rounded up to whole pages, stay below 2 ^ 32.
abbrev pub Fits32 : Elf32Phdr → Type 0
Fits32 ph = ph.p_vaddr + ph.p_memsz + 4095 < 4294967296

-- Where a page begins.
abbrev pub page_start : ℕ → ℕ
page_start a = a / 4096 * 4096

pub align_down-page_start : (v : ℕ) → v < 4294967296 → align_down v ≡ page_start v
unfolding align_down
align_down-page_start v l = bit_and_page v l

pub align_up-page_start : (v : ℕ) → v + 4095 < 4294967296 → align_up v ≡ page_start (v + 4095)
unfolding align_up
align_up-page_start v l =
    let e : (v + 4095) % 4294967296 ≡ v + 4095 = omega arith in rw e (bit_and_page (v + 4095) l)

segment_end : (ph : Elf32Phdr) → Fits32 ph → add32 ph.p_vaddr ph.p_memsz ≡ ph.p_vaddr + ph.p_memsz
segment_end ph l = omega arith

pub segment_up :
    (ph : Elf32Phdr)
    → Fits32 ph
    → align_up (add32 ph.p_vaddr ph.p_memsz) ≡ page_start (ph.p_vaddr + ph.p_memsz + 4095)
segment_up ph l = ap align_up (segment_end ph l) ∙ align_up-page_start (ph.p_vaddr + ph.p_memsz) l

in_span-page :
    (ph : Elf32Phdr) (r : ElfLoadResult) (a : ℕ)
    → in_span ph r ≡ true
    → ph.p_type ≡ pt_load
    → Fits32 ph
    → ph.p_vaddr ≤ a
    → a < ph.p_vaddr + ph.p_memsz
    → (r.load_base ≤ page_start a) × (page_start a + 4096 ≤ r.load_end)
unfolding in_span
in_span-page ph r a h t l lo hi =
    let down = align_down-page_start ph.p_vaddr (omega arith) in
    let up = segment_up ph l in (ground (arith, down, up), ground (arith, down, up))

-- The span that the first loop computes has the whole page of every address of every segment that
-- is loaded, where the addresses of the segment, rounded up to pages, stay below 2 ^ 32.
pub page-span :
    (file : ℕ → ℕ) (res : ElfLoadResult) (j a : ℕ)
    → j < (read_header file).e_phnum
    → (phdr file j).p_type ≡ pt_load
    → Fits32 (phdr file j)
    → (phdr file j).p_vaddr ≤ a
    → a < (phdr file j).p_vaddr + (phdr file j).p_memsz
    → ((span file res).load_base ≤ page_start a) × (page_start a + 4096 ≤ (span file res).load_end)
page-span file res j a l t w lo hi =
    in_span-page (phdr file j) (span file res) a (in_span-span file res j l) t w lo hi
