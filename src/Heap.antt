-- ===== src/Heap.antt =====
-- kernel/heap.cpp: the kernel's heap. A pointer to a block is the address of its header, `none` if
-- it is null; the headers are a function of the address. What lies between the headers is not
-- modelled, and so neither is the copy of krealloc.
use sabaka_os.Common.{
  ℕ, zero, suc, ◌+◌, ◌-◌, ◌*◌, ◌/◌, Option, none, some, Bool, true, false, not, ◌&&◌, ◌||◌, ltb,
  leb, ◌==◌, if◌then◌else◌, update,
}
use Prim.Native.Nat.{bit_and}
use sabaka_os.Common.Words.{u32, add32, sub32}
pub mod Cells
pub mod Find
pub mod Alloc
pub mod Valid
pub mod Malloc
pub mod Merge
pub mod Free
mod Tests

pub record Block : Type 0 where
  pub size : ℕ
  pub free : Bool
  pub next : Option ℕ
  pub prev : Option ℕ
  pub magic : ℕ

-- `sizeof(Block)`, with pointers of four bytes.
abbrev pub sizeof_block : ℕ
sizeof_block = 20

abbrev pub heap_magic : ℕ
heap_magic = 0xABCD1234

abbrev pub min_split : ℕ
min_split = 16

pub record Heap : Type 0 where
  pub blocks : ℕ → Block
  pub heap_head : Option ℕ
  pub heap_start : ℕ
  pub heap_sz : ℕ
  pub used_bytes : ℕ

unfoldable pub heap_init : (ℕ → Block) → (start size : ℕ) → Heap
heap_init blocks start size = record {
  blocks = update blocks start (record {
    size = sub32 size sizeof_block;
    free = true;
    next = none;
    prev = none;
    magic = heap_magic;
  });
  heap_head = some start;
  heap_start = start;
  heap_sz = size;
  used_bytes = 0;
}

-- What a walk along the list of blocks comes to.
pub data Search : Type 0 where
  block : ℕ → Search
  no_block out_of_fuel : Search

abbrev pub fits : Block → ℕ → Bool
fits b size = b.free && leb size b.size && (b.magic == heap_magic)

unfoldable pub find_loop : (ℕ → Block) → ℕ → ℕ → Option ℕ → Search
find_loop blocks size zero b = out_of_fuel
find_loop blocks size (suc fuel) none = no_block
find_loop blocks size (suc fuel) (some a) =
    let rest = find_loop blocks size fuel (blocks a).next in
    if fits (blocks a) size then block a else rest

-- A block takes its header's bytes at least, which bounds how many there are.
abbrev pub walk_fuel : Heap → ℕ
walk_fuel h = h.heap_sz / sizeof_block + 1

unfoldable pub find_free : Heap → ℕ → Search
find_free h size = find_loop h.blocks size (walk_fuel h) h.heap_head

-- `if (p) p->prev = b;`
abbrev pub set_prev : (ℕ → Block) → Option ℕ → Option ℕ → ℕ → Block
set_prev blocks none b = blocks
set_prev blocks (some p) b = update blocks p (record (blocks p) { prev = b })

-- try_split once it is known to split the block `b`, whose next block is `next`: the new block is
-- at `nb`, and has `rest` bytes.
abbrev pub split_block : (ℕ → Block) → (b size nb rest : ℕ) → Option ℕ → ℕ → Block
split_block blocks b size nb rest next =
    let new : Block = record {
      size = rest;
      free = true;
      next = next;
      prev = some b;
      magic = heap_magic;
    } in
    let blocks' = set_prev (update blocks nb new) next (some nb) in
    update blocks' b (record (blocks' b) { next = some nb; size = size })

unfoldable pub try_split : (ℕ → Block) → ℕ → ℕ → ℕ → Block
try_split blocks b size =
    if ltb (blocks b).size (add32 size (sizeof_block + min_split))
    then blocks
    else split_block blocks b size (add32 b (add32 sizeof_block size))
        (sub32 (sub32 (blocks b).size size) sizeof_block) (blocks b).next

-- `b && b->free && b->magic == HEAP_MAGIC`
abbrev pub is_free_block : (ℕ → Block) → Option ℕ → Bool
is_free_block blocks none = false
is_free_block blocks (some a) = (blocks a).free && ((blocks a).magic == heap_magic)

-- The block after `b` becomes a part of it, which leaves `b` with `size` bytes, before `next`.
abbrev pub absorb : (ℕ → Block) → (b size : ℕ) → Option ℕ → ℕ → Block
absorb blocks b size next =
    set_prev (update blocks b (record (blocks b) { size = size; next = next })) next (some b)

-- What `b` has when the block at `n` is a part of it.
abbrev pub joined_size : (ℕ → Block) → ℕ → ℕ → ℕ
joined_size blocks b n = add32 (blocks b).size (add32 sizeof_block (blocks n).size)

unfoldable pub merge_next : (ℕ → Block) → ℕ → ℕ → Block
merge_next blocks b = elim (blocks b).next [
  | none ↦ blocks
  | some n ↦
      if is_free_block blocks (some n)
      then absorb blocks b (joined_size blocks b n) (blocks n).next
      else blocks
]

unfoldable pub merge_prev : (ℕ → Block) → ℕ → ℕ → Block
merge_prev blocks b = elim (blocks b).prev [
  | none ↦ blocks
  | some p ↦
      if is_free_block blocks (some p)
      then absorb blocks p (joined_size blocks p b) (blocks b).next
      else blocks
]

unfoldable pub try_merge : (ℕ → Block) → ℕ → ℕ → Block
try_merge blocks b = merge_prev (merge_next blocks b) b

-- `(size + 7) & ~7u`
abbrev pub align8 : ℕ → ℕ
align8 size = add32 size 7 / 8 * 8

-- kmalloc once the block is found.
unfoldable pub take_block : Heap → ℕ → ℕ → Heap × Option ℕ
take_block h size b =
    let split = try_split h.blocks b size in
    (
      record h {
        blocks = update split b (record (split b) { free = false });
        used_bytes = add32 h.used_bytes (split b).size;
      },
      some (add32 b sizeof_block),
    )

-- The address, `none` for a null pointer.
unfoldable pub kmalloc : Heap → ℕ → Heap × Option ℕ
kmalloc h size =
    let found : Heap × Option ℕ = elim (find_free h (align8 size)) [
      | block b ↦ take_block h (align8 size) b
      | no_block ↦ (h, none)
      | out_of_fuel ↦ (h, none)
    ] in
    if size == 0 then (h, none) else found

unfoldable pub kmalloc_aligned : Heap → (size align : ℕ) → Heap × Option ℕ
kmalloc_aligned h size align =
    let (h', raw) = kmalloc h (add32 size align) in
    elim raw [
      | none ↦ (h', none)
      | some addr ↦ (h', some (bit_and (sub32 (add32 addr align) 1) (4294967295 - sub32 align 1)))
    ]

-- kfree once it is known that the block is in use.
unfoldable pub free_block : Heap → ℕ → Heap
free_block h b =
    let size = (h.blocks b).size in
    record h {
      blocks = try_merge (update h.blocks b (record (h.blocks b) { free = true })) b;
      used_bytes = if leb size h.used_bytes then h.used_bytes - size else h.used_bytes;
    }

-- `b->magic != HEAP_MAGIC || b->free`
abbrev pub not_used : Heap → ℕ → Bool
not_used h b = not ((h.blocks b).magic == heap_magic) || (h.blocks b).free

unfoldable pub kfree : Heap → Option ℕ → Heap
kfree h none = h
kfree h (some ptr) = let b = sub32 ptr sizeof_block in if not_used h b then h else free_block h b

unfoldable pub krealloc : Heap → Option ℕ → ℕ → Heap × Option ℕ
krealloc h none new_size = kmalloc h new_size
krealloc h (some ptr) new_size =
    let b = h.blocks (sub32 ptr sizeof_block) in
    let moved : Heap × Option ℕ =
      let (h', newptr) = kmalloc h (align8 new_size) in
      elim newptr [ none ↦ (h', none) | some p ↦ (kfree h' (some ptr), some p) ] in
    if new_size == 0
    then (kfree h (some ptr), none)
    else if not (b.magic == heap_magic)
    then (h, none)
    else if leb (align8 new_size) b.size
    then (h, some ptr)
    else moved

-- The sum of the sizes of the free blocks, `none` where the fuel does not do.
unfoldable pub free_loop : (ℕ → Block) → ℕ → Option ℕ → ℕ → Option ℕ
free_loop blocks zero b f = none
free_loop blocks (suc fuel) none f = some f
free_loop blocks (suc fuel) (some a) f =
    free_loop blocks fuel (blocks a).next (if (blocks a).free then add32 f (blocks a).size else f)

unfoldable pub heap_free : Heap → Option ℕ
heap_free h = free_loop h.blocks (walk_fuel h) h.heap_head 0
