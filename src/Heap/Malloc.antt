-- ===== src/Heap/Malloc.antt =====
-- kernel/heap.cpp, kmalloc: which block it takes, and the heap that it leaves.
use sabaka_os.Common.{
  ℕ, ◌+◌, ◌-◌, ◌/◌, ◌%◌, ◌≤◌, ◌<◌, ◌≡◌, refl, ◌∙◌, sym, ap, subst, Option, none, some, true, false,
  List, ◌∷◌, ◌++◌, if◌then◌else◌, arith, length, Bool-cases, inl, inr, ltb, ◌==◌,
}
use sabaka_os.Heap.{
  Heap, Search, block, no_block, out_of_fuel, take_block, kmalloc, find_free, walk_fuel, align8,
  sizeof_block, try_split,
}
use sabaka_os.Heap.Cells.{
  Cell, stop, stop-ge, stop-append, last, Holds-frame, Holds-append, append-Holds,
}
use sabaka_os.Heap.Find.{Found, found, nothing, NoneFits, fits_cell, find_loop-Found, length-cells}
use sabaka_os.Heap.Alloc.{taken, mark, take-Holds, take-before, try_split-size}
use sabaka_os.Heap.Valid.{IsValid, used_sum, used_sum-append, used_sum-le}

pub find_free-Found :
    (h : Heap) (cs : List Cell) (size : ℕ)
    → IsValid h cs
    → Found h.heap_start size cs (find_free h size)
unfolding find_free
find_free-Found h cs size v =
    let enough : length cs < h.heap_sz / 20 + 1 =
      grind (arith, length-cells h.heap_start cs, v.tiles) in
    rw v.head (
      find_loop-Found h.blocks size (walk_fuel h) (h.heap_start + h.heap_sz) none h.heap_start cs
        v.holds v.tiles enough)

stop-taken :
    (a size : ℕ) (c : Cell) (ys : List Cell)
    → size ≤ c.size
    → stop a (taken size c ++ ys) ≡ stop a (c ∷ ys)
stop-taken a size c ys l = elim (Bool-cases (ltb c.size (size + 36))) [
  | inl s ↦ rw s refl
  | inr s ↦ rw s (
      ap (λ k. stop k ys)
        (let e : a + (20 + size) + (20 + (c.size - size - 20)) ≡ a + (20 + c.size) = ground arith in
          e))
]

used_sum-taken :
    (size : ℕ) (c : Cell) (ys : List Cell)
    → used_sum (taken size c ++ ys)
      ≡ (if ltb c.size (size + 36) then c.size else size) + used_sum ys
used_sum-taken size c ys = elim (Bool-cases (ltb c.size (size + 36))) [
  | inl s ↦ rw s (omega arith)
  | inr s ↦ rw s (omega arith)
]

-- What kmalloc may do with the cells `cs`.
pub data Allocated (h : Heap) (cs : List Cell) (size : ℕ) : Heap × Option ℕ → Type 0 where
  no_room : NoneFits size cs → Allocated h cs size (h, none)
  allocated :
      (h' : Heap) (xs : List Cell) (c : Cell) (ys : List Cell)
      → cs ≡ xs ++ (c ∷ ys)
      → NoneFits size xs
      → fits_cell size c ≡ true
      → IsValid h' (xs ++ (taken size c ++ ys))
      → Allocated h cs size (h', some (stop h.heap_start xs + sizeof_block))

pub take_block-IsValid :
    (h : Heap) (size : ℕ) (xs : List Cell) (c : Cell) (ys : List Cell)
    → IsValid h (xs ++ (c ∷ ys))
    → c.free ≡ true
    → size ≤ c.size
    → IsValid (take_block h size (stop h.heap_start xs)).0 (xs ++ (taken size c ++ ys))
unfolding take_block
take_block-IsValid h size xs c ys v f l =
    let start : ℕ = h.heap_start in
    let end : ℕ = h.heap_start + h.heap_sz in
    let b : ℕ = stop start xs in
    let parts = Holds-append h.blocks end none start xs (c ∷ ys) v.holds in
    let low : 16 < b = omega (arith, v.low, stop-ge start xs) in
    let q : Option ℕ = last none start xs in
    let tiles : stop start (xs ++ (taken size c ++ ys)) ≡ end =
      stop-append start xs (taken size c ++ ys)
      ∙ stop-taken b size c ys l
      ∙ sym (stop-append start xs (c ∷ ys))
      ∙ v.tiles in
    let free_sum : used_sum (c ∷ ys) ≡ used_sum ys = rw f (omega arith) in
    let split : ℕ = (try_split h.blocks b size b).size in
    let sum : h.used_bytes + split ≡ used_sum (xs ++ (taken size c ++ ys)) = omega (
      arith,
      v.used,
      used_sum-append xs (c ∷ ys),
      used_sum-append xs (taken size c ++ ys),
      used_sum-taken size c ys,
      free_sum,
      try_split-size h.blocks end q b size c ys parts.1 (omega (arith, v.high)) low l,
    ) in
    record {
      low = v.low;
      high = v.high;
      head = v.head;
      holds =
          append-Holds (mark (try_split h.blocks b size) b) end none start xs (taken size c ++ ys)
            (Holds-frame h.blocks (mark (try_split h.blocks b size) b) end none start xs
              (λ i a u.
                take-before h.blocks end q b size c ys parts.1 (omega (arith, v.high)) low l i u)
              parts.0)
            (take-Holds h.blocks end q b size c ys parts.1 (omega (arith, v.high)) low l);
      tiles = tiles;
      used =
          ap (λ k. k % 4294967296) sum
          ∙ omega (arith, used_sum-le start (xs ++ (taken size c ++ ys)), tiles, v.high, v.low);
    }

fits_cell_iff : (size : ℕ) (c : Cell) → fits_cell size c ≡ true → (c.free ≡ true) × (size ≤ c.size)
fits_cell_iff size c e = elim (Bool-cases c.free) [
  | inl f ↦ (f, ground arith)
  | inr f ↦ absurd (ground arith)
]

take_block-Allocated :
    (h : Heap) (cs : List Cell) (size : ℕ) (xs : List Cell) (c : Cell) (ys : List Cell)
    → IsValid h cs
    → cs ≡ xs ++ (c ∷ ys)
    → NoneFits size xs
    → fits_cell size c ≡ true
    → Allocated h cs size (take_block h size (stop h.heap_start xs))
unfolding take_block
take_block-Allocated h cs size xs c ys v s u f =
    let v' : IsValid h (xs ++ (c ∷ ys)) = subst (IsValid h) s v in
    let both = fits_cell_iff size c f in
    let in_heap =
      (Holds-append h.blocks (h.heap_start + h.heap_sz) none h.heap_start xs (c ∷ ys) v'.holds).1 in
    let e : (stop h.heap_start xs + 20) % 4294967296 ≡ stop h.heap_start xs + 20 =
      omega (arith, in_heap.0, v.high) in
    subst (λ k. Allocated h cs size ((take_block h size (stop h.heap_start xs)).0, some k)) (sym e)
      (allocated _ xs c ys s u f (take_block-IsValid h size xs c ys v' both.0 both.1))

-- With a valid heap and a size above 0, kmalloc takes the first cell that is free and holds the size
-- rounded up to a multiple of 8 in 32 bits, splits it where what is left is large enough, and leaves
-- a valid heap; it gives a null pointer, and changes nothing, only where no cell fits.
pub kmalloc-Allocated :
    (h : Heap) (cs : List Cell) (size : ℕ)
    → IsValid h cs
    → 0 < size
    → Allocated h cs (align8 size) (kmalloc h size)
unfolding kmalloc
kmalloc-Allocated h cs size v n =
    go (find_free h (align8 size)) refl (find_free-Found h cs (align8 size) v)
  where
    not_zero : (size == 0) ≡ false
    not_zero = ground arith

    go :
        (r : Search)
        → find_free h (align8 size) ≡ r
        → Found h.heap_start (align8 size) cs r
        → Allocated h cs (align8 size) (kmalloc h size)
    go no_block e (nothing none_fits) = rw (kmalloc, not_zero, e) (no_room none_fits)
    go out_of_fuel e f = elim f [ ]
    go (block b) e (found xs c ys s u f) =
        rw (kmalloc, not_zero, e) (take_block-Allocated h cs (align8 size) xs c ys v s u f)
