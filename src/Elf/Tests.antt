-- ===== src/Elf/Tests.antt =====
-- Examples for the loader of kernel/elf_loader.cpp.
use sabaka_os.Common.{◌≤◌, ◌+◌, for_range, ℕ, ◌<◌, ◌≡◌, refl, arith, true, ◌==◌, if◌then◌else◌}
use sabaka_os.Elf.{
  align_up, align_down, load_segment, load_loop, read_phdr, extend, read_header, phdr, span, is_bad,
  no_result, elf_load,
}
use sabaka_os.Elf.Span.{page_start, page-span}
use sabaka_os.Elf.Load.{IsProgram, Loaded, elf_load-Loaded}

-- A program of 84 bytes with one segment of 84 bytes in the file and 100 in memory, at 0x08048000.
abbrev program : ℕ → ℕ
program i =
    if i == 0
    then 127
    else if i == 1
    then b'E'
    else if i == 2
    then b'L'
    else if i == 3
    then b'F'
    else if i == 16
    then 2
    else if i == 18
    then 3
    else if i == 24
    then 84
    else if i == 28
    then 52
    else if i == 42
    then 32
    else if i == 44
    then 1
    else if i == 52
    then 1
    else if i == 61
    then 128
    else if i == 62
    then 4
    else if i == 63
    then 8
    else if i == 68
    then 84
    else if i == 72
    then 100
    else 0

one_segment : 0 < (read_header program).e_phnum
unfolding read_header
one_segment = omega arith

page-span_example :
    let r = span program no_result in
    let a : ℕ = 0x08048063 in (r.load_base ≤ page_start a) × (page_start a + 4096 ≤ r.load_end)
unfolding read_header read_phdr
page-span_example =
    page-span program no_result 0 0x08048063 one_segment refl (omega arith) (omega arith)
      (omega arith)

loads : (elf_load (λ base size flags. true) program 84 (λ i. 0)).1.ok ≡ true
unfolding elf_load span for_range extend read_header read_phdr is_bad load_loop load_segment
    align_down align_up
loads = refl

elf_load-Loaded_example :
    IsProgram program 84 × Loaded (λ base size flags. true) 84 (phdr program 0)
unfolding read_header read_phdr
elf_load-Loaded_example =
    elf_load-Loaded (λ base size flags. true) program 84 (λ i. 0) 0 loads one_segment refl
      (omega arith) (omega arith) (omega arith)
