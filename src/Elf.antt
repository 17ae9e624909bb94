-- ===== src/Elf.antt =====
-- kernel/elf_loader.h and kernel/elf_loader.cpp: the loader of programs. `alloc base size flags` is
-- the answer of `paging_alloc_region`; the bytes of memory are a function of the address, and so
-- are those of the file.
use Prim.Native.Nat.{bit_and, bit_or}
use sabaka_os.Common.{
  ◌&&◌, ℕ, zero, suc, ◌+◌, ◌*◌, Bool, true, false, ◌||◌, not, ltb, ◌==◌, if◌then◌else◌, for_range,
}
use sabaka_os.Common.Words.{add32, sub32, mul32}
use sabaka_os.KString.Memory.{kmemset, copy_into}
pub mod Span
pub mod Load
mod Tests

abbrev pub elf_magic : ℕ
elf_magic = 0x464C457F

abbrev pub et_exec : ℕ
et_exec = 2

abbrev pub em_386 : ℕ
em_386 = 3

abbrev pub pt_load : ℕ
pt_load = 1

abbrev pub pf_w : ℕ
pf_w = 0x2

-- The fields that the loader reads, little-endian.
abbrev pub le16 : (ℕ → ℕ) → ℕ → ℕ
le16 file i = file i + file (i + 1) * 256

abbrev pub le32 : (ℕ → ℕ) → ℕ → ℕ
le32 file i = le16 file i + le16 file (i + 2) * 65536

pub record Elf32Header : Type 0 where
  pub magic : ℕ
  pub e_type : ℕ
  pub e_machine : ℕ
  pub e_entry : ℕ
  pub e_phoff : ℕ
  pub e_phentsize : ℕ
  pub e_phnum : ℕ

unfoldable pub read_header : (ℕ → ℕ) → Elf32Header
read_header file = record {
  magic = le32 file 0;
  e_type = le16 file 16;
  e_machine = le16 file 18;
  e_entry = le32 file 24;
  e_phoff = le32 file 28;
  e_phentsize = le16 file 42;
  e_phnum = le16 file 44;
}

pub record Elf32Phdr : Type 0 where
  pub p_type : ℕ
  pub p_offset : ℕ
  pub p_vaddr : ℕ
  pub p_filesz : ℕ
  pub p_memsz : ℕ
  pub p_flags : ℕ

unfoldable pub read_phdr : (ℕ → ℕ) → ℕ → Elf32Phdr
read_phdr file at = record {
  p_type = le32 file at;
  p_offset = le32 file (at + 4);
  p_vaddr = le32 file (at + 8);
  p_filesz = le32 file (at + 16);
  p_memsz = le32 file (at + 20);
  p_flags = le32 file (at + 24);
}

-- The i-th program header.
abbrev pub phdr : (ℕ → ℕ) → ℕ → Elf32Phdr
phdr file i = let eh = read_header file in read_phdr file (add32 eh.e_phoff (i * eh.e_phentsize))

pub record ElfLoadResult : Type 0 where
  pub ok : Bool
  pub entry : ℕ
  pub load_base : ℕ
  pub load_end : ℕ

-- `v & ~(4096 - 1)`
unfoldable pub align_down : ℕ → ℕ
align_down v = bit_and v 0xFFFFF000

-- `(v + 4096 - 1) & ~(4096 - 1)`
unfoldable pub align_up : ℕ → ℕ
align_up v = bit_and (add32 v 4095) 0xFFFFF000

-- The segments that the two loops pass over.
abbrev pub skipped : Elf32Phdr → Bool
skipped ph = not (ph.p_type == pt_load) || ph.p_memsz == 0

-- One round of the first loop.
unfoldable pub extend : Elf32Phdr → ElfLoadResult → ElfLoadResult
extend ph res =
    let seg_start = align_down ph.p_vaddr in
    let seg_end = align_up (add32 ph.p_vaddr ph.p_memsz) in
    if skipped ph then res else record res {
      load_base = if ltb seg_start res.load_base then seg_start else res.load_base;
      load_end = if ltb res.load_end seg_end then seg_end else res.load_end;
    }

-- The first loop: the span of the program.
unfoldable pub span : (ℕ → ℕ) → ElfLoadResult → ElfLoadResult
span file res = for_range 0 (read_header file).e_phnum (λ i r. extend (phdr file i) r) res

-- `PAGE_PRESENT | PAGE_USER`, and PAGE_WRITE for a segment that is written.
abbrev pub page_flags : Elf32Phdr → ℕ
page_flags ph = if bit_and ph.p_flags pf_w == 0 then 5 else 7

-- The bytes of a segment from the file, and the zeros after them.
abbrev pub copy_segment : (ℕ → ℕ) → Elf32Phdr → (ℕ → ℕ) → (ℕ → ℕ)
copy_segment file ph mem =
    let copied =
      if ltb 0 ph.p_filesz then copy_into mem ph.p_vaddr file ph.p_offset ph.p_filesz else mem in
    if ltb ph.p_filesz ph.p_memsz
    then kmemset copied (add32 ph.p_vaddr ph.p_filesz) 0 (sub32 ph.p_memsz ph.p_filesz)
    else copied

-- One round of the second loop: memory, and whether the load goes on.
unfoldable pub load_segment :
    (alloc : ℕ → ℕ → ℕ → Bool) → (ℕ → ℕ) → (size : ℕ) → Elf32Phdr → (ℕ → ℕ) → (ℕ → ℕ) × Bool
load_segment alloc file size ph mem =
    let page_base = align_down ph.p_vaddr in
    let map_size = sub32 (align_up (add32 ph.p_vaddr ph.p_memsz)) page_base in
    if skipped ph
    then (mem, true)
    else if not (alloc page_base map_size (page_flags ph))
    then (mem, false)
    else if ltb 0 ph.p_filesz && ltb size (add32 ph.p_offset ph.p_filesz)
    then (mem, false)
    else (copy_segment file ph mem, true)

-- The second loop, from header `i` on, with `n` left.
unfoldable pub load_loop :
    (alloc : ℕ → ℕ → ℕ → Bool) → (ℕ → ℕ) → (size i : ℕ) → (n : ℕ) → (ℕ → ℕ) → (ℕ → ℕ) × Bool
load_loop alloc file size i zero mem = (mem, true)
load_loop alloc file size i (suc n) mem =
    let (mem', goes_on) = load_segment alloc file size (phdr file i) mem in
    let rest = load_loop alloc file size (i + 1) n mem' in if goes_on then rest else (mem', false)

-- The tests of the header.
unfoldable pub is_bad : (ℕ → ℕ) → ℕ → Bool
is_bad file size =
    let eh = read_header file in
    not (eh.magic == elf_magic)
    || not (eh.e_type == et_exec)
    || not (eh.e_machine == em_386)
    || eh.e_phnum == 0
    || ltb size (add32 eh.e_phoff (mul32 eh.e_phnum 32))

abbrev pub no_result : ElfLoadResult
no_result = record { ok = false; entry = 0; load_base = 0xFFFFFFFF; load_end = 0 }

unfoldable pub elf_load :
    (alloc : ℕ → ℕ → ℕ → Bool) → (ℕ → ℕ) → ℕ → (ℕ → ℕ) → (ℕ → ℕ) × ElfLoadResult
elf_load alloc file size mem =
    let res = span file no_result in
    let (mem', loaded) = load_loop alloc file size 0 (read_header file).e_phnum mem in
    if ltb size 52 || is_bad file size
    then (mem, no_result)
    else if res.load_base == 0xFFFFFFFF
    then (mem, res)
    else (
      mem',
      if loaded then record res { ok = true; entry = (read_header file).e_entry } else res,
    )
