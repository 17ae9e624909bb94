-- ===== src/Heap/Cells.antt =====
-- kernel/heap.cpp: the list of blocks, as the cells that tile the heap one after the other.
use sabaka_os.Common.{
  ℕ, ◌+◌, ◌≤◌, ◌<◌, ◌≡◌, refl, ◌∙◌, Option, none, some, Bool, List, [], ◌∷◌, ◌++◌, ◌==◌,
  if◌then◌else◌, arith,
}
use sabaka_os.Heap.{Block, sizeof_block, heap_magic}

pub record Cell : Type 0 where
  pub size : ℕ
  pub free : Bool

-- The address after a cell at `a`.
abbrev pub next_address : ℕ → Cell → ℕ
next_address a c = a + (sizeof_block + c.size)

-- The address where the cells from `a` on end.
abbrev pub stop : ℕ → List Cell → ℕ
stop a [] = a
stop a (c ∷ cs) = stop (next_address a c) cs

-- The last of the cells from `a` on, `p` if there are none.
abbrev pub last : Option ℕ → ℕ → List Cell → Option ℕ
last p a [] = p
last p a (c ∷ cs) = last (some a) (next_address a c) cs

-- A pointer to the block at `a`, which is null at the end of the heap.
abbrev pub link : ℕ → ℕ → Option ℕ
link end a = if a == end then none else some a

abbrev pub header : ℕ → Option ℕ → ℕ → Cell → Block
header end p a c = record {
  size = c.size;
  free = c.free;
  next = link end (next_address a c);
  prev = p;
  magic = heap_magic;
}

-- From `a` on, the headers are those of the cells, after the block `p`, in a heap that ends at `end`.
abbrev pub Holds : (ℕ → Block) → ℕ → Option ℕ → ℕ → List Cell → Type 0
Holds blocks end p a [] = a ≤ end
Holds blocks end p a (c ∷ cs) =
    (next_address a c ≤ end)
    × (blocks a ≡ header end p a c)
    × Holds blocks end (some a) (next_address a c) cs

pub stop-ge : (a : ℕ) (cs : List Cell) → a ≤ stop a cs
stop-ge a [] = omega arith
stop-ge a (c ∷ cs) = omega (arith, stop-ge (next_address a c) cs)

pub stop-append : (a : ℕ) (xs ys : List Cell) → stop a (xs ++ ys) ≡ stop (stop a xs) ys
stop-append a [] ys = refl
stop-append a (x ∷ xs) ys = stop-append (next_address a x) xs ys

pub Holds-append :
    (blocks : ℕ → Block) (end : ℕ) (p : Option ℕ) (a : ℕ) (xs ys : List Cell)
    → Holds blocks end p a (xs ++ ys)
    → Holds blocks end p a xs × Holds blocks end (last p a xs) (stop a xs) ys
Holds-append blocks end p a [] ys h = (starts_in p a ys h, h)
  where
    starts_in : (p : Option ℕ) (a : ℕ) (ys : List Cell) → Holds blocks end p a ys → a ≤ end
    starts_in p a [] h = h
    starts_in p a (y ∷ ys) h = omega (arith, h.0)
Holds-append blocks end p a (x ∷ xs) ys h =
    let r = Holds-append blocks end (some a) (next_address a x) xs ys h.2 in ((h.0, h.1, r.0), r.1)

pub append-Holds :
    (blocks : ℕ → Block) (end : ℕ) (p : Option ℕ) (a : ℕ) (xs ys : List Cell)
    → Holds blocks end p a xs
    → Holds blocks end (last p a xs) (stop a xs) ys
    → Holds blocks end p a (xs ++ ys)
append-Holds blocks end p a [] ys h g = g
append-Holds blocks end p a (x ∷ xs) ys h g =
    (h.0, h.1, append-Holds blocks end (some a) (next_address a x) xs ys h.2 g)

-- What lies outside the cells does not matter.
pub Holds-frame :
    (blocks blocks' : ℕ → Block) (end : ℕ) (p : Option ℕ) (a : ℕ) (cs : List Cell)
    → ((i : ℕ) → a ≤ i → i < stop a cs → blocks' i ≡ blocks i)
    → Holds blocks end p a cs
    → Holds blocks' end p a cs
Holds-frame blocks blocks' end p a [] f h = h
Holds-frame blocks blocks' end p a (c ∷ cs) f h = (
  h.0,
  f a (omega arith) (omega (arith, stop-ge (next_address a c) cs)) ∙ h.1,
  Holds-frame blocks blocks' end (some a) (next_address a c) cs (λ i l u. f i (omega arith) u) h.2,
)
