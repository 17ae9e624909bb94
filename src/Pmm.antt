-- ===== src/Pmm.antt =====
-- kernel/pmm.h and kernel/pmm.cpp: the allocator of physical pages, a bitmap with a bit for each
-- page, set where the page is in use. `kernel_end` is the linker's symbol.
pub mod Bitmap
pub mod Count
mod Tests
use Prim.Native.Nat.{bit_and, bit_or}
use sabaka_os.Common.{
  ℕ, ◌+◌, ◌-◌, ◌*◌, ◌/◌, ◌%◌, ◌^◌, Option, none, some, Bool, true, false, not, ◌==◌, if◌then◌else◌,
  update, find_index, for_range,
}
use sabaka_os.Common.Words.{add32, sub32, mul32}

abbrev pub page_size : ℕ
page_size = 4096

abbrev pub Bitmap : Type 0
Bitmap = ℕ → ℕ

pub record Pmm : Type 0 where
  pub bitmap : Bitmap
  pub total_pages : ℕ
  pub used_pages : ℕ
  pub bitmap_size : ℕ

-- `1 << (page % 8)`
abbrev pub bit_of : ℕ → ℕ
bit_of page = 2 ^ (page % 8)

unfoldable pub bitmap_set : Bitmap → ℕ → Bitmap
bitmap_set b page = update b (page / 8) (bit_or (b (page / 8)) (bit_of page))

-- `~(1 << k)`, cut to a byte by the assignment.
unfoldable pub bitmap_clear : Bitmap → ℕ → Bitmap
bitmap_clear b page = update b (page / 8) (bit_and (b (page / 8)) (255 - bit_of page))

unfoldable pub bitmap_test : Bitmap → ℕ → Bool
bitmap_test b page = not (bit_and (b (page / 8)) (bit_of page) == 0)

-- The loop of `pmm_init` that frees the pages after the kernel.
unfoldable pub free_pages_loop : ℕ → ℕ → Bitmap → Bitmap
free_pages_loop first n b = for_range first n (λ i b'. bitmap_clear b' i) b

-- `for (i = first_free; i < total_pages; i++)` makes `total_pages - first_free` rounds, none if
-- `first_free` is past the end.
unfoldable pub pmm_init : Pmm → ℕ → ℕ → Pmm
pmm_init s kernel_end mem_size_bytes =
    let total = mem_size_bytes / page_size in
    let size = total / 8 in
    let full = for_range 0 size (λ i b. update b i 255) s.bitmap in
    let first_free = add32 kernel_end (page_size - 1) / page_size in
    let freed = free_pages_loop first_free (total - first_free) full in
    record {
      bitmap = for_range 0 256 (λ i b. bitmap_set b i) freed;
      total_pages = total;
      used_pages = sub32 total (total - first_free);
      bitmap_size = size;
    }

-- The address of the page, `none` for a null pointer, which the address of page 0 is too.
unfoldable pub pmm_alloc : Pmm → Pmm × Option ℕ
pmm_alloc s = elim (find_index (λ i. not (bitmap_test s.bitmap i)) 0 s.total_pages) [
  | none ↦ (s, none)
  | some i ↦ (
    record s { bitmap = bitmap_set s.bitmap i; used_pages = add32 s.used_pages 1 },
    if mul32 i page_size == 0 then none else some (mul32 i page_size),
  )
]

unfoldable pub pmm_free : Pmm → ℕ → Pmm
pmm_free s addr =
    let page = addr / page_size in
    if bitmap_test s.bitmap page
    then record s { bitmap = bitmap_clear s.bitmap page; used_pages = sub32 s.used_pages 1 }
    else s

unfoldable pub pmm_free_pages : Pmm → ℕ
pmm_free_pages s = sub32 s.total_pages s.used_pages

unfoldable pub pmm_used_pages : Pmm → ℕ
pmm_used_pages s = s.used_pages
