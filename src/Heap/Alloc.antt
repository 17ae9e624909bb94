-- ===== src/Heap/Alloc.antt =====
-- kernel/heap.cpp, try_split and kmalloc: the cell that is found is taken, and split where it is
-- large enough.
use sabaka_os.Common.{
  ==_refl, ℕ, ◌+◌, ◌-◌, ◌%◌, ◌≤◌, ◌<◌, ◌≡◌, ◌≢◌, refl, ◌∙◌, sym, ap, ap₂, subst, Option, some, Bool,
  true, false, List, [], ◌∷◌, ◌++◌, ltb, ◌==◌, if◌then◌else◌, arith, inl, inr, Bool-cases, update,
  update_self, update_ne,
}
use sabaka_os.Common.Words.{add32, sub32}
use sabaka_os.Heap.{split_block, Block, set_prev, try_split, sizeof_block, heap_magic, min_split}
use sabaka_os.Heap.Cells.{Cell, next_address, link, header, Holds, Holds-frame}
use sabaka_os.Heap.Find.{link-some}

pub set_prev-other :
    (blocks : ℕ → Block) (end a : ℕ) (q : Option ℕ) (i : ℕ)
    → i ≢ a
    → set_prev blocks (link end a) q i ≡ blocks i
set_prev-other blocks end a q i n = elim (Bool-cases (a == end)) [
  | inl e ↦ rw e refl
  | inr e ↦ rw e (update_ne blocks a i _ (omega arith))
]

pub set_prev-at :
    (blocks : ℕ → Block) (end a : ℕ) (q : Option ℕ)
    → a < end
    → set_prev blocks (link end a) q a ≡ record (blocks a) { prev = q }
set_prev-at blocks end a q l = rw (link-some end a l) (update_self blocks a _)

-- The cells from `a` on, once they follow another block.
pub Holds-after :
    (blocks blocks' : ℕ → Block) (end : ℕ) (p q : Option ℕ) (a : ℕ) (cs : List Cell)
    → ((i : ℕ) → a < i → blocks' i ≡ blocks i)
    → (a < end → blocks' a ≡ record (blocks a) { prev = q })
    → Holds blocks end p a cs
    → Holds blocks' end q a cs
Holds-after blocks blocks' end p q a [] f g h = h
Holds-after blocks blocks' end p q a (c ∷ cs) f g h = (
  h.0,
  g (omega (arith, h.0)) ∙ ap (λ (b : Block). record b { prev = q }) h.1,
  Holds-frame blocks blocks' end (some a) (next_address a c) cs (λ i l u. f i (omega arith)) h.2,
)

-- A cell that becomes two.
split_Holds :
    (blocks blocks' : ℕ → Block) (end : ℕ) (p : Option ℕ) (b : ℕ) (c d e : Cell) (ys : List Cell)
    → Holds blocks end p b (c ∷ ys)
    → d.size + (sizeof_block + e.size) ≡ c.size
    → blocks' b ≡ header end p b d
    → blocks' (next_address b d) ≡ header end (some b) (next_address b d) e
    → ((i : ℕ) → next_address b c < i → blocks' i ≡ blocks i)
    → (next_address b c < end
        → blocks' (next_address b c)
          ≡ record (blocks (next_address b c)) { prev = some (next_address b d) })
    → Holds blocks' end p b (d ∷ e ∷ ys)
split_Holds blocks blocks' end p b c d e ys h s at_b at_n f g =
    let here : next_address (next_address b d) e ≡ next_address b c = omega arith in
    (
      omega (arith, h.0),
      at_b,
      (
        omega (arith, h.0),
        at_n,
        subst (λ a. Holds blocks' end (some (next_address b d)) a ys) (sym here)
            (Holds-after blocks blocks' end (some b) (some (next_address b d)) (next_address b c) ys
              f g h.2),
      ),
    )

-- What a block is split into.
abbrev pub taken : ℕ → Cell → List Cell
taken size c =
    if ltb c.size (size + (sizeof_block + min_split))
    then record c { free = false } ∷ []
    else record { size = size; free = false }
      ∷ record { size = c.size - size - sizeof_block; free = true }
      ∷ []

-- The mark of a block that is given out.
abbrev pub mark : (ℕ → Block) → ℕ → ℕ → Block
mark blocks b = update blocks b (record (blocks b) { free = false })

mark-Holds :
    (blocks : ℕ → Block) (end : ℕ) (p : Option ℕ) (b : ℕ) (c : Cell) (ys : List Cell)
    → Holds blocks end p b (c ∷ ys)
    → Holds (mark blocks b) end p b (record c { free = false } ∷ ys)
mark-Holds blocks end p b c ys h = (
  h.0,
  update_self blocks b _ ∙ ap (λ (x : Block). record x { free = false }) h.1,
  Holds-frame blocks (mark blocks b) end (some b) (next_address b c) ys
      (λ i l u. update_ne blocks b i _ (omega arith)) h.2,
)

split_block-Holds :
    (blocks : ℕ → Block) (end : ℕ) (p : Option ℕ) (b size rest : ℕ) (c : Cell) (ys : List Cell)
    → Holds blocks end p b (c ∷ ys)
    → size + (sizeof_block + rest) ≡ c.size
    → Holds
        (split_block blocks b size (b + (sizeof_block + size)) rest (link end (next_address b c)))
        end
        p
        b
        (record { size = size; free = c.free } ∷ record { size = rest; free = true } ∷ ys)
split_block-Holds blocks end p b size rest c ys h s =
    let n : ℕ = b + (sizeof_block + size) in
    let a : ℕ = next_address b c in
    let here : next_address n (record { size = rest; free = true }) ≡ a = omega arith in
    let new : Block = record {
      size = rest;
      free = true;
      next = link end a;
      prev = some b;
      magic = heap_magic;
    } in
    let blocks1 : ℕ → Block = update blocks n new in
    let blocks2 : ℕ → Block = set_prev blocks1 (link end a) (some n) in
    split_Holds blocks _ end p b c (record { size = size; free = c.free })
      (record { size = rest; free = true }) ys h s
      (update_self blocks2 b _
        ∙ ap (λ (x : Block). record x { next = some n; size = size })
            (set_prev-other blocks1 end a (some n) b (omega arith)
              ∙ update_ne blocks n b new (omega arith)
              ∙ h.1)
        ∙ ap
            (λ (x : Option ℕ). record {
              size = size;
              free = c.free;
              next = x;
              prev = p;
              magic = heap_magic;
            })
            (sym (link-some end n (omega (arith, h.0)))))
      (update_ne blocks2 b n _ (omega arith)
        ∙ set_prev-other blocks1 end a (some n) n (omega arith)
        ∙ update_self blocks n new
        ∙ ap (λ k. record new { next = link end k }) (sym here))
      (λ i l.
        update_ne blocks2 b i _ (omega arith)
        ∙ set_prev-other blocks1 end a (some n) i (omega arith)
        ∙ update_ne blocks n i new (omega arith))
      (λ l.
        update_ne blocks2 b a _ (omega arith)
        ∙ set_prev-at blocks1 end a (some n) l
        ∙ ap (λ (x : Block). record x { prev = some n }) (update_ne blocks n a new (omega arith)))

pick_else :
    (t : Bool) (x : ℕ → Block) (f : ℕ → ℕ → Option ℕ → ℕ → Block) {n n' r r' : ℕ} {q q' : Option ℕ}
    → t ≡ false
    → n ≡ n'
    → r ≡ r'
    → q ≡ q'
    → (if t then x else f n r q) ≡ f n' r' q'
pick_else t x f e a b c = rw (e, a, b, c) refl

pick_then : (t : Bool) (x y : ℕ → Block) → t ≡ true → (if t then x else y) ≡ x
pick_then t x y e = rw e refl

split_block-size :
    (blocks : ℕ → Block) (b size n r : ℕ) (q : Option ℕ)
    → (split_block blocks b size n r q b).size ≡ size
split_block-size blocks b size n r q = rw (==_refl b) refl

module _ (blocks : ℕ → Block) (end : ℕ) (p : Option ℕ) (b size : ℕ) (c : Cell) (ys : List Cell)
    (h : Holds blocks end p b (c ∷ ys)) (m : end ≤ 4294967296) (low : 16 < b)
    (l : size ≤ c.size) where
  size_eq : (blocks b).size ≡ c.size
  size_eq = ap (λ (x : Block). x.size) h.1

  test_eq : ltb (blocks b).size (add32 size (sizeof_block + min_split)) ≡ ltb c.size (size + 36)
  test_eq = ap₂ ltb size_eq (let e : (size + 36) % 4294967296 ≡ size + 36 = omega (arith, h.0) in e)

  try_split-small : ltb c.size (size + 36) ≡ true → try_split blocks b size ≡ blocks
  unfolding try_split
  try_split-small s = pick_then _ blocks _ (test_eq ∙ s)

  try_split-large :
      ltb c.size (size + 36) ≡ false
      → try_split blocks b size
        ≡ split_block blocks b size
            (b + (sizeof_block + size))
            (c.size - size - sizeof_block)
            (link end (next_address b c))
  unfolding try_split
  try_split-large s =
      let big : size + 36 ≤ c.size = ground arith in
      pick_else _ blocks (split_block blocks b size) (test_eq ∙ s)
        (let e : (b + (20 + size) % 4294967296) % 4294967296 ≡ b + (20 + size) =
            omega (arith, h.0) in
          e)
        (ap (λ k. sub32 (sub32 k size) sizeof_block) size_eq
          ∙ rest_eq c.size big (omega (arith, h.0)))
        (ap (λ (x : Block). x.next) h.1)
    where
      rest_eq :
          (k : ℕ)
          → size + 36 ≤ k
          → k < 4294967296
          → sub32 (sub32 k size) sizeof_block ≡ k - size - sizeof_block
      rest_eq k a b =
          let e : (k + 4294967296 - size) % 4294967296 ≡ k - size = omega arith in
          rw e (omega arith)

  abbrev rest : Cell
  rest = record { size = c.size - size - sizeof_block; free = true }

  taken-small : ltb c.size (size + 36) ≡ true → taken size c ≡ record c { free = false } ∷ []
  taken-small s = rw s refl

  taken-large :
      ltb c.size (size + 36) ≡ false
      → taken size c ≡ record { size = size; free = false } ∷ rest ∷ []
  taken-large s = rw s refl

  -- try_split and the mark, for the block of a cell of `size` bytes at least.
  pub take-Holds : Holds (mark (try_split blocks b size) b) end p b (taken size c ++ ys)
  take-Holds = elim (Bool-cases (ltb c.size (size + 36))) [
    | inl s ↦ along (try_split-small s) (taken-small s) (mark-Holds blocks end p b c ys h)
    | inr s ↦
        let sum : size + (sizeof_block + (c.size - size - sizeof_block)) ≡ c.size = ground arith in
        along (try_split-large s) (taken-large s) (
          mark-Holds _ end p b (record { size = size; free = c.free }) (rest ∷ ys)
            (split_block-Holds blocks end p b size (c.size - size - sizeof_block) c ys h sum))
  ]
    where
      along :
          {t t' : ℕ → Block} {cs cs' : List Cell}
          → t ≡ t'
          → cs ≡ cs'
          → Holds (mark t' b) end p b (cs' ++ ys)
          → Holds (mark t b) end p b (cs ++ ys)
      along {t} {t'} {cs} {cs'} e d g =
          subst (λ x. Holds (mark x b) end p b (cs ++ ys)) (sym e)
            (subst (λ x. Holds (mark t' b) end p b (x ++ ys)) (sym d) g)

  -- It leaves the blocks before it alone.
  pub take-before : (i : ℕ) → i < b → mark (try_split blocks b size) b i ≡ blocks i
  take-before i u =
      update_ne (try_split blocks b size) b i _ (omega arith)
      ∙ elim (Bool-cases (ltb c.size (size + 36))) [
        | inl s ↦ ap (λ (t : ℕ → Block). t i) (try_split-small s)
        | inr s ↦
            ap (λ (t : ℕ → Block). t i) (try_split-large s)
            ∙ update_ne (set_prev (update blocks n new) (link end (next_address b c)) (some n)) b i
                _ (omega arith)
            ∙ set_prev-other (update blocks n new) end (next_address b c) (some n) i (omega arith)
            ∙ update_ne blocks n i new (omega arith)
      ]
    where
      n : ℕ
      n = b + (sizeof_block + size)

      new : Block
      new = record {
        size = rest.size;
        free = true;
        next = link end (next_address b c);
        prev = some b;
        magic = heap_magic;
      }

  pub try_split-size :
      (try_split blocks b size b).size ≡ (if ltb c.size (size + 36) then c.size else size)
  try_split-size = elim (Bool-cases (ltb c.size (size + 36))) [
    | inl s ↦ ap (λ (t : ℕ → Block). (t b).size) (try_split-small s) ∙ size_eq ∙ rw s refl
    | inr s ↦
        ap (λ (t : ℕ → Block). (t b).size) (try_split-large s)
        ∙ split_block-size blocks b size (b + (sizeof_block + size)) (c.size - size - sizeof_block)
            (link end (next_address b c))
        ∙ rw s refl
  ]
