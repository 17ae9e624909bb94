-- ===== src/Heap/Free.antt =====
-- kernel/heap.cpp, kfree: the block is free, as one with its free neighbours.
use sabaka_os.Common.{
  ℕ, ◌+◌, ◌<◌, ◌≡◌, refl, ◌∙◌, sym, ap, subst, Option, none, some, Bool, true, false, List, [], ◌∷◌,
  ◌++◌, if◌then◌else◌, arith, Bool-cases, inl, inr, leb, update, update_self, update_ne,
}
use sabaka_os.Common.Words.{sub32}
use sabaka_os.Heap.{
  Block, Heap, kfree, free_block, not_used, try_merge, merge_next, merge_prev, sizeof_block,
}
use sabaka_os.Heap.Cells.{
  Cell, next_address, stop, stop-append, last, Holds, Holds-frame, Holds-append, append-Holds,
}
use sabaka_os.Heap.Merge.{joined, with_next, with_prev, merge_next-Holds, merge_prev-Holds}
use sabaka_os.Heap.Valid.{IsValid, used_sum, used_sum-append}

abbrev pub freed : Cell → Cell
freed c = record c { free = true }

stop-with_next : (a : ℕ) (c : Cell) (ys : List Cell) → stop a (with_next c ys) ≡ stop a (c ∷ ys)
stop-with_next a c [] = refl
stop-with_next a c (d ∷ ys) = elim (Bool-cases d.free) [
  | inl f ↦ rw f (
      ap (λ k. stop k ys)
        (let e : a + (20 + (c.size + (20 + d.size))) ≡ a + (20 + c.size) + (20 + d.size) =
            omega arith in
          e))
  | inr f ↦ rw f refl
]

stop-with_prev :
    (a : ℕ) (x : Cell) (xs : List Cell) (c : Cell) (ys : List Cell)
    → stop a (with_prev x xs c ys) ≡ stop a (x ∷ (xs ++ (c ∷ ys)))
stop-with_prev a x [] c ys = elim (Bool-cases x.free) [
  | inl f ↦ rw f (
      ap (λ k. stop k ys)
        (let e : a + (20 + (x.size + (20 + c.size))) ≡ a + (20 + x.size) + (20 + c.size) =
            omega arith in
          e))
  | inr f ↦ rw f refl
]
stop-with_prev a x (y ∷ xs) c ys = stop-with_prev (next_address a x) y xs c ys

-- The two parts of `with_next`.
abbrev pub next_cell : Cell → List Cell → Cell
next_cell c [] = c
next_cell c (d ∷ ys) = if d.free then joined c d else c

abbrev pub next_rest : List Cell → List Cell
next_rest [] = []
next_rest (d ∷ ys) = if d.free then ys else d ∷ ys

with_next-parts : (c : Cell) (ys : List Cell) → with_next c ys ≡ next_cell c ys ∷ next_rest ys
with_next-parts c [] = refl
with_next-parts c (d ∷ ys) = elim (Bool-cases d.free) [ inl f ↦ rw f refl | inr f ↦ rw f refl ]

next_cell-free : (c : Cell) (ys : List Cell) → (next_cell c ys).free ≡ c.free
next_cell-free c [] = refl
next_cell-free c (d ∷ ys) = elim (Bool-cases d.free) [ inl f ↦ rw f refl | inr f ↦ rw f refl ]

used_sum-with_next :
    (c : Cell) (ys : List Cell) → c.free ≡ true → used_sum (with_next c ys) ≡ used_sum (c ∷ ys)
used_sum-with_next c [] f = refl
used_sum-with_next c (d ∷ ys) f = elim (Bool-cases d.free) [
  | inl g ↦ rw (g, f) (omega arith)
  | inr g ↦ rw g refl
]

used_sum-with_prev :
    (x : Cell) (xs : List Cell) (c : Cell) (ys : List Cell)
    → c.free ≡ true
    → used_sum (with_prev x xs c ys) ≡ used_sum (x ∷ (xs ++ (c ∷ ys)))
used_sum-with_prev x [] c ys f = elim (Bool-cases x.free) [
  | inl g ↦ rw (g, f) (omega arith)
  | inr g ↦ rw g refl
]
used_sum-with_prev x (y ∷ xs) c ys f =
    ap (λ k. (if x.free then 0 else x.size) + k) (used_sum-with_prev y xs c ys f)

-- The cells once `c`, after `xs` and before `ys`, is together with its free neighbours.
abbrev pub merged : List Cell → Cell → List Cell → List Cell
merged [] c ys = next_cell c ys ∷ next_rest ys
merged (x ∷ xs) c ys = with_prev x xs (next_cell c ys) (next_rest ys)

stop-parts :
    (a : ℕ) (c : Cell) (ys : List Cell) → stop a (next_cell c ys ∷ next_rest ys) ≡ stop a (c ∷ ys)
stop-parts a c ys = ap (stop a) (sym (with_next-parts c ys)) ∙ stop-with_next a c ys

used_sum-parts :
    (c : Cell) (ys : List Cell)
    → c.free ≡ true
    → used_sum (next_cell c ys ∷ next_rest ys) ≡ used_sum (c ∷ ys)
used_sum-parts c ys f = ap used_sum (sym (with_next-parts c ys)) ∙ used_sum-with_next c ys f

stop-merged :
    (a : ℕ) (xs : List Cell) (c : Cell) (ys : List Cell)
    → stop a (merged xs c ys) ≡ stop a (xs ++ (c ∷ ys))
stop-merged a [] c ys = stop-parts a c ys
stop-merged a (x ∷ xs) c ys =
    stop-with_prev a x xs (next_cell c ys) (next_rest ys)
    ∙ stop-append a (x ∷ xs) (next_cell c ys ∷ next_rest ys)
    ∙ stop-parts (stop a (x ∷ xs)) c ys
    ∙ sym (stop-append a (x ∷ xs) (c ∷ ys))

used_sum-merged :
    (xs : List Cell) (c : Cell) (ys : List Cell)
    → c.free ≡ true
    → used_sum (merged xs c ys) ≡ used_sum (xs ++ (c ∷ ys))
used_sum-merged [] c ys f = used_sum-parts c ys f
used_sum-merged (x ∷ xs) c ys f =
    used_sum-with_prev x xs (next_cell c ys) (next_rest ys) (next_cell-free c ys ∙ f)
    ∙ used_sum-append (x ∷ xs) (next_cell c ys ∷ next_rest ys)
    ∙ ap (λ k. used_sum (x ∷ xs) + k) (used_sum-parts c ys f)
    ∙ sym (used_sum-append (x ∷ xs) (c ∷ ys))

try_merge-Holds :
    (blocks : ℕ → Block) (end start : ℕ) (xs : List Cell) (c : Cell) (ys : List Cell)
    → Holds blocks end none start (xs ++ (c ∷ ys))
    → end < 4294967296
    → stop start (xs ++ (c ∷ ys)) ≡ end
    → Holds (try_merge blocks (stop start xs)) end none start (merged xs c ys)
unfolding try_merge merge_prev
try_merge-Holds blocks end start xs c ys h m s =
    let b : ℕ = stop start xs in
    let parts = Holds-append blocks end none start xs (c ∷ ys) h in
    let nexts =
      merge_next-Holds blocks end (last none start xs) b c ys parts.1 m
        (sym (stop-append start xs (c ∷ ys)) ∙ s) in
    let here =
      subst (λ cs. Holds (merge_next blocks b) end (last none start xs) b cs) (with_next-parts c ys)
        nexts.0 in
    let before =
      Holds-frame blocks (merge_next blocks b) end none start xs (λ i l u. nexts.1 i u) parts.0 in
    with_list xs (merge_next blocks b) (
      append-Holds (merge_next blocks b) end none start xs (next_cell c ys ∷ next_rest ys) before
        here)
  where
    unmoved : (bl : ℕ → Block) → (bl start).prev ≡ none → merge_prev bl start ≡ bl
    unmoved bl e = rw (merge_prev, e) refl

    with_list :
        (xs : List Cell) (bl : ℕ → Block)
        → Holds bl end none start (xs ++ (next_cell c ys ∷ next_rest ys))
        → Holds (merge_prev bl (stop start xs)) end none start (merged xs c ys)
    with_list [] bl g =
        let no_prev : (bl start).prev ≡ none = ap (λ (x : Block). x.prev) g.1 in
        subst (λ (t : ℕ → Block). Holds t end none start (next_cell c ys ∷ next_rest ys))
          (sym (unmoved bl no_prev)) g
    with_list (x ∷ xs) bl g =
        (merge_prev-Holds bl end none start x xs (next_cell c ys) (next_rest ys) g m).0

free_block-IsValid :
    (h : Heap) (xs : List Cell) (c : Cell) (ys : List Cell)
    → IsValid h (xs ++ (c ∷ ys))
    → c.free ≡ false
    → IsValid (free_block h (stop h.heap_start xs)) (merged xs (freed c) ys)
unfolding free_block
free_block-IsValid h xs c ys v f =
    let start : ℕ = h.heap_start in
    let end : ℕ = h.heap_start + h.heap_sz in
    let b : ℕ = stop start xs in
    let q : Option ℕ = last none start xs in
    let new : Block = record (h.blocks b) { free = true } in
    let parts = Holds-append h.blocks end none start xs (c ∷ ys) v.holds in
    let same_stop : stop start (xs ++ (freed c ∷ ys)) ≡ stop start (xs ++ (c ∷ ys)) =
      stop-append start xs (freed c ∷ ys) ∙ sym (stop-append start xs (c ∷ ys)) in
    let marked : Holds (update h.blocks b new) end none start (xs ++ (freed c ∷ ys)) =
      append-Holds (update h.blocks b new) end none start xs (freed c ∷ ys)
        (Holds-frame h.blocks (update h.blocks b new) end none start xs
          (λ i l u. update_ne h.blocks b i new (omega arith)) parts.0)
        (
          parts.1.0,
          update_self h.blocks b new ∙ ap (λ (x : Block). record x { free = true }) parts.1.1,
          Holds-frame h.blocks (update h.blocks b new) end (some b) (next_address b c) ys
              (λ i l u. update_ne h.blocks b i new (omega arith)) parts.1.2,
        ) in
    let size_eq : (h.blocks b).size ≡ c.size = ap (λ (x : Block). x.size) parts.1.1 in
    let in_use : used_sum (c ∷ ys) ≡ c.size + used_sum ys = rw f refl in
    let sums = used_sum-append xs (c ∷ ys) in
    let sums' = used_sum-append xs (freed c ∷ ys) in
    let enough : leb c.size h.used_bytes ≡ true = ground (arith, v.used, sums, in_use) in
    record {
      low = v.low;
      high = v.high;
      head = v.head;
      holds =
          try_merge-Holds (update h.blocks b new) end start xs (freed c) ys marked v.high
            (same_stop ∙ v.tiles);
      tiles = stop-merged start xs (freed c) ys ∙ same_stop ∙ v.tiles;
      used =
          rw (size_eq, enough)
            (omega (arith, v.used, sums, sums', in_use, used_sum-merged xs (freed c) ys refl));
    }

unguarded :
    {A : Type 0} (g : ℕ → Bool) (x : A) (y : ℕ → A) {b b' : ℕ}
    → b' ≡ b
    → g b ≡ false
    → (if g b' then x else y b') ≡ y b
unguarded g x y e f = rw (e, f) refl

-- With a valid heap, a block that is in use can be freed: the heap is valid after it, with the
-- block, and its free neighbours with it, as one free cell.
pub kfree-IsValid :
    (h : Heap) (xs : List Cell) (c : Cell) (ys : List Cell)
    → IsValid h (xs ++ (c ∷ ys))
    → c.free ≡ false
    → IsValid (kfree h (some (stop h.heap_start xs + sizeof_block))) (merged xs (freed c) ys)
unfolding kfree
kfree-IsValid h xs c ys v f =
    let b : ℕ = stop h.heap_start xs in
    let parts =
      Holds-append h.blocks (h.heap_start + h.heap_sz) none h.heap_start xs (c ∷ ys) v.holds in
    let e : sub32 (b + sizeof_block) sizeof_block ≡ b = omega (arith, parts.1.0, v.high) in
    let used : not_used h b ≡ false = rw (parts.1.1, f) refl in
    subst (λ k. IsValid k (merged xs (freed c) ys))
      (sym (unguarded (not_used h) h (free_block h) e used)) (free_block-IsValid h xs c ys v f)
