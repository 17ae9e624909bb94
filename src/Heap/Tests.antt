-- ===== src/Heap/Tests.antt =====
-- kernel/heap.cpp on a heap of 1000 bytes at 4096.
use sabaka_os.Common.{ℕ, ◌≡◌, refl, List, [], ◌∷◌, none, some, true, false, arith}
use sabaka_os.Heap.{
  Block, Heap, heap_init, kmalloc, kfree, heap_free, take_block, align8, find_free, find_loop,
  try_split, try_merge, merge_next, merge_prev, free_block, free_loop,
}
use sabaka_os.Heap.Cells.{Cell}
use sabaka_os.Heap.Valid.{IsValid, heap_init-IsValid}
use sabaka_os.Heap.Malloc.{Allocated, kmalloc-Allocated, take_block-IsValid}
use sabaka_os.Heap.Free.{kfree-IsValid}

abbrev before : ℕ → Block
before a = record { size = 0; free = false; next = none; prev = none; magic = 0 }

abbrev fresh : Heap
fresh = heap_init before 4096 1000

abbrev whole : List Cell
whole = record { size = 980; free = true } ∷ []

abbrev taken_cell : Cell
taken_cell = record { size = 16; free = false }

abbrev left_over : Cell
left_over = record { size = 944; free = true }

fresh-IsValid : IsValid fresh whole
fresh-IsValid = heap_init-IsValid before 4096 1000 (omega arith) (omega arith) (omega arith)

kmalloc-Allocated_example : Allocated fresh whole (align8 10) (kmalloc fresh 10)
kmalloc-Allocated_example = kmalloc-Allocated fresh whole 10 fresh-IsValid (omega arith)

abbrev one_taken : Heap
one_taken = (take_block fresh 16 4096).0

one_taken-IsValid : IsValid one_taken (taken_cell ∷ left_over ∷ [])
unfolding heap_init
one_taken-IsValid =
    take_block-IsValid fresh 16 [] (record { size = 980; free = true }) [] fresh-IsValid refl
      (omega arith)

kfree-IsValid_example : IsValid (kfree one_taken (some 4116)) whole
unfolding heap_init take_block
kfree-IsValid_example =
    kfree-IsValid one_taken [] taken_cell (left_over ∷ []) one_taken-IsValid refl

gives_address : (kmalloc fresh 10).1 ≡ some 4116
unfolding heap_init kmalloc take_block find_free find_loop try_split
gives_address = refl

counts_free : heap_free (kmalloc fresh 10).0 ≡ some 944
unfolding heap_init kmalloc take_block find_free find_loop try_split heap_free free_loop
counts_free = refl

all_free_again : heap_free (kfree (kmalloc fresh 10).0 (some 4116)) ≡ some 980
unfolding heap_init kmalloc take_block find_free find_loop try_split heap_free free_loop kfree
    free_block try_merge merge_next merge_prev
all_free_again = refl

-- A size within 7 of 2 ^ 32 is rounded up to 0, and the whole of the heap is given out for it.
rounds_to_zero : (kmalloc fresh 4294967295).1 ≡ some 4116
unfolding heap_init kmalloc take_block find_free find_loop try_split
rounds_to_zero = refl
