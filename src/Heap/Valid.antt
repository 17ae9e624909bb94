-- ===== src/Heap/Valid.antt =====
-- kernel/heap.cpp: the state of the heap, and what heap_init makes.
use sabaka_os.Common.{
  ℕ, ◌+◌, ◌-◌, ◌%◌, ◌≤◌, ◌<◌, ◌≡◌, refl, ◌∙◌, sym, ap₂, Option, none, true, List, [], ◌∷◌, ◌++◌,
  if◌then◌else◌, arith, update_self,
}
use sabaka_os.Heap.{Block, Heap, heap_init, sizeof_block, heap_magic}
use sabaka_os.Heap.Cells.{Cell, next_address, stop, link, Holds}
use sabaka_os.Heap.Find.{link-none}

-- The bytes of the cells that are in use.
abbrev pub used_sum : List Cell → ℕ
used_sum [] = 0
used_sum (c ∷ cs) = (if c.free then 0 else c.size) + used_sum cs

pub used_sum-append : (xs ys : List Cell) → used_sum (xs ++ ys) ≡ used_sum xs + used_sum ys
used_sum-append [] ys = omega arith
used_sum-append (x ∷ xs) ys = omega (arith, used_sum-append xs ys)

-- The cells have room for what they use.
pub used_sum-le : (a : ℕ) (cs : List Cell) → used_sum cs + a ≤ stop a cs
used_sum-le a [] = omega arith
used_sum-le a (c ∷ cs) = ground (arith, used_sum-le (next_address a c) cs)

-- The cells tile the heap from its start to its end, the blocks are the list of them in both
-- directions, and `used_bytes` is what they use.
pub record IsValid (h : Heap) (cs : List Cell) : Type 0 where
  pub low : 16 < h.heap_start
  pub high : h.heap_start + h.heap_sz < 4294967296
  pub head : h.heap_head ≡ link (h.heap_start + h.heap_sz) h.heap_start
  pub holds : Holds h.blocks (h.heap_start + h.heap_sz) none h.heap_start cs
  pub tiles : stop h.heap_start cs ≡ h.heap_start + h.heap_sz
  pub used : h.used_bytes ≡ used_sum cs

pub heap_init-IsValid :
    (blocks : ℕ → Block) (start size : ℕ)
    → 16 < start
    → start + size < 4294967296
    → sizeof_block ≤ size
    → IsValid
        (heap_init blocks start size)
        (record { size = size - sizeof_block; free = true } ∷ [])
unfolding heap_init
heap_init-IsValid blocks start size a b c =
    let s : (size + 4294967296 - 20) % 4294967296 ≡ size - 20 = omega arith in
    let e : start + (20 + (size - 20)) ≡ start + size = omega arith in
    record {
      low = a;
      high = b;
      head = ground arith;
      holds = (
        omega arith,
        update_self blocks start _
            ∙ ap₂
                (λ (k : ℕ) (q : Option ℕ). record {
                  size = k;
                  free = true;
                  next = q;
                  prev = none;
                  magic = heap_magic;
                })
                s (sym (link-none (start + size) (start + (20 + (size - 20))) e)),
        omega arith,
      );
      tiles = e;
      used = refl;
    }
