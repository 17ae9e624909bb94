-- ===== src/Heap/Find.antt =====
-- kernel/heap.cpp, find_free: the first fit, which the walk finds before its fuel is used up.
use sabaka_os.Common.{
  ℕ, zero, suc, ◌+◌, ◌*◌, ◌≤◌, ◌<◌, ◌≡◌, refl, ap, Option, none, some, Bool, true, false, List, [],
  ◌∷◌, ◌++◌, ◌&&◌, leb, arith, inl, inr, Bool-cases, length,
}
use sabaka_os.Heap.{Block, Search, block, no_block, fits, find_loop, sizeof_block}
use sabaka_os.Heap.Cells.{Cell, next_address, stop, link, header, Holds}

abbrev pub fits_cell : ℕ → Cell → Bool
fits_cell size c = c.free && leb size c.size

abbrev pub NoneFits : ℕ → List Cell → Type 0
NoneFits size [] = zero ≡ zero
NoneFits size (c ∷ cs) = (fits_cell size c ≡ false) × NoneFits size cs

-- The first cell that fits, or the lack of one.
pub data Found (a size : ℕ) (cs : List Cell) : Search → Type 0 where
  found :
      (xs : List Cell) (c : Cell) (ys : List Cell)
      → cs ≡ xs ++ (c ∷ ys)
      → NoneFits size xs
      → fits_cell size c ≡ true
      → Found a size cs (block (stop a xs))
  nothing : NoneFits size cs → Found a size cs no_block

fits-header :
    (end : ℕ) (p : Option ℕ) (a size : ℕ) (c : Cell)
    → fits (header end p a c) size ≡ fits_cell size c
fits-header end p a size c = elim (Bool-cases c.free) [
  | inl f ↦ rw f (elim (Bool-cases (leb size c.size)) [ inl l ↦ rw l refl | inr l ↦ rw l refl ])
  | inr f ↦ rw f refl
]

skip :
    {a size : ℕ} {c : Cell} {cs : List Cell} {r : Search}
    → fits_cell size c ≡ false
    → Found (next_address a c) size cs r
    → Found a size (c ∷ cs) r
skip {c = c} u (found xs d ys e n f) =
    found (c ∷ xs) d ys (ap (λ (l : List Cell). c ∷ l) e) (u, n) f
skip u (nothing n) = nothing (u, n)

pub link-some : (end a : ℕ) → a < end → link end a ≡ some a
link-some end a l = ground arith

pub link-none : (end a : ℕ) → a ≡ end → link end a ≡ none
link-none end a e = ground arith

pub find_loop-Found :
    (blocks : ℕ → Block) (size fuel end : ℕ) (p : Option ℕ) (a : ℕ) (cs : List Cell)
    → Holds blocks end p a cs
    → stop a cs ≡ end
    → length cs < fuel
    → Found a size cs (find_loop blocks size fuel (link end a))
unfolding find_loop
find_loop-Found blocks size zero end p a cs h s l = absurd (omega arith)
find_loop-Found blocks size (suc fuel) end p a [] h s l =
    rw (link-none end a s, find_loop) (nothing refl)
find_loop-Found blocks size (suc fuel) end p a (c ∷ cs) h s l =
    let rest =
      find_loop-Found blocks size fuel end (some a) (next_address a c) cs h.2 s (omega arith) in
    elim (Bool-cases (fits_cell size c)) [
      | inl f ↦
          rw (link-some end a (omega (arith, h.0)), find_loop, h.1, fits-header end p a size c, f)
            (found [] c cs refl refl f)
      | inr u ↦
          rw (link-some end a (omega (arith, h.0)), find_loop, h.1, fits-header end p a size c, u)
            (skip u rest)
    ]

-- A block takes 20 bytes at least.
pub length-cells : (a : ℕ) (cs : List Cell) → length cs * sizeof_block + a ≤ stop a cs
length-cells a [] = omega arith
length-cells a (c ∷ cs) = omega (arith, length-cells (next_address a c) cs)
