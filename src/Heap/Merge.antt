-- ===== src/Heap/Merge.antt =====
-- kernel/heap.cpp, try_merge: the cells of the heap after two blocks become one.
use sabaka_os.Common.{
  [], ◌++◌, Bool-cases, inl, inr, false, none, sym, ℕ, ◌+◌, ◌%◌, ◌<◌, ◌≡◌, refl, ◌∙◌, ap, ap₂,
  subst, Option, some, Bool, true, List, ◌∷◌, if◌then◌else◌, arith, update, update_self, update_ne,
}
use sabaka_os.Common.Words.{add32}
use sabaka_os.Heap.{
  is_free_block, merge_next, merge_prev, Block, absorb, joined_size, set_prev, sizeof_block,
}
use sabaka_os.Heap.Cells.{stop, Cell, next_address, link, Holds}
use sabaka_os.Heap.Find.{link-some, link-none}
use sabaka_os.Heap.Alloc.{set_prev-other, set_prev-at, Holds-after}

-- Two neighbours as one cell.
abbrev pub joined : Cell → Cell → Cell
joined c d = record c { size = c.size + (sizeof_block + d.size) }

absorb-Holds :
    (blocks : ℕ → Block) (end : ℕ) (p : Option ℕ) (b : ℕ) (c d : Cell) (ys : List Cell)
    → Holds blocks end p b (c ∷ d ∷ ys)
    → Holds
        (absorb blocks b (joined c d).size (link end (next_address b (joined c d))))
        end
        p
        b
        (joined c d ∷ ys)
absorb-Holds blocks end p b c d ys h =
    let a : ℕ = next_address b (joined c d) in
    let here : next_address (next_address b c) d ≡ a = omega arith in
    let new : Block = record (blocks b) { size = (joined c d).size; next = link end a } in
    (
      omega (arith, h.2.0),
      set_prev-other (update blocks b new) end a (some b) b (omega arith)
          ∙ update_self blocks b new
          ∙ ap (λ (x : Block). record x { size = (joined c d).size; next = link end a }) h.1,
      Holds-after blocks (set_prev (update blocks b new) (link end a) (some b)) end
          (some (next_address b c)) (some b) a ys
          (λ i l.
            set_prev-other (update blocks b new) end a (some b) i (omega arith)
            ∙ update_ne blocks b i new (omega arith))
          (λ l.
            set_prev-at (update blocks b new) end a (some b) l
            ∙ ap (λ (x : Block). record x { prev = some b })
                (update_ne blocks b a new (omega arith)))
          (subst (λ k. Holds blocks end (some (next_address b c)) k ys) here h.2.2),
    )

absorb-before :
    (blocks : ℕ → Block) (end b size a i : ℕ)
    → b < a
    → i < b
    → absorb blocks b size (link end a) i ≡ blocks i
absorb-before blocks end b size a i l u =
    set_prev-other (update blocks b _) end a (some b) i (omega arith)
    ∙ update_ne blocks b i _ (omega arith)

pick :
    {A : Type 0} (t : Bool) (f : ℕ → Option ℕ → A) (y : A) {n n' : ℕ} {q q' : Option ℕ}
    → t ≡ true
    → n ≡ n'
    → q ≡ q'
    → (if t then f n q else y) ≡ f n' q'
pick t f y e a b = rw (e, a, b) refl

module _ (blocks : ℕ → Block) (end : ℕ) (p : Option ℕ) (b : ℕ) (c d : Cell) (ys : List Cell)
    (h : Holds blocks end p b (c ∷ d ∷ ys)) (m : end < 4294967296) where
  sizes : joined_size blocks b (next_address b c) ≡ (joined c d).size
  sizes =
      ap₂ add32 (ap (λ (x : Block). x.size) h.1)
        (ap (λ (x : Block). add32 sizeof_block x.size) h.2.1)
      ∙ (let e : (c.size + (20 + d.size) % 4294967296) % 4294967296 ≡ c.size + (20 + d.size) =
            omega (arith, h.2.0) in
          e)

  nexts : (blocks (next_address b c)).next ≡ link end (next_address b (joined c d))
  nexts =
      ap (λ (x : Block). x.next) h.2.1
      ∙ ap (link end) (
          let e : b + (20 + c.size) + (20 + d.size) ≡ b + (20 + (c.size + (20 + d.size))) =
            omega arith in
          e)

  abbrev absorbed : ℕ → Block
  absorbed = absorb blocks b (joined c d).size (link end (next_address b (joined c d)))

  merge_next-free : d.free ≡ true → merge_next blocks b ≡ absorbed
  unfolding merge_next
  merge_next-free f =
      let nx : (blocks b).next ≡ some (next_address b c) =
        ap (λ (x : Block). x.next) h.1 ∙ link-some end (next_address b c) (omega (arith, h.2.0)) in
      let free : is_free_block blocks (some (next_address b c)) ≡ true = rw (h.2.1, f) refl in
      rw (merge_next, nx)
        (pick (is_free_block blocks (some (next_address b c))) (absorb blocks b) blocks free sizes
          nexts)

  merge_next-used : d.free ≡ false → merge_next blocks b ≡ blocks
  unfolding merge_next
  merge_next-used f =
      let nx : (blocks b).next ≡ some (next_address b c) =
        ap (λ (x : Block). x.next) h.1 ∙ link-some end (next_address b c) (omega (arith, h.2.0)) in
      rw (merge_next, nx, h.2.1, f) refl

  merge_prev-free : c.free ≡ true → merge_prev blocks (next_address b c) ≡ absorbed
  unfolding merge_prev
  merge_prev-free f =
      let pv : (blocks (next_address b c)).prev ≡ some b = ap (λ (x : Block). x.prev) h.2.1 in
      let free : is_free_block blocks (some b) ≡ true = rw (h.1, f) refl in
      rw (merge_prev, pv)
        (pick (is_free_block blocks (some b)) (absorb blocks b) blocks free sizes nexts)

  merge_prev-used : c.free ≡ false → merge_prev blocks (next_address b c) ≡ blocks
  unfolding merge_prev
  merge_prev-used f =
      let pv : (blocks (next_address b c)).prev ≡ some b = ap (λ (x : Block). x.prev) h.2.1 in
      rw (merge_prev, pv, h.1, f) refl

-- A cell together with the one after it, if that is free.
abbrev pub with_next : Cell → List Cell → List Cell
with_next c [] = c ∷ []
with_next c (d ∷ ys) = if d.free then joined c d ∷ ys else c ∷ d ∷ ys

-- The cell after `x` and `xs` together with the one before it, if that is free.
abbrev pub with_prev : Cell → List Cell → Cell → List Cell → List Cell
with_prev x [] c ys = if x.free then joined x c ∷ ys else x ∷ c ∷ ys
with_prev x (y ∷ xs) c ys = x ∷ with_prev y xs c ys

along :
    {t t' : ℕ → Block} {cs cs' : List Cell} (end : ℕ) (p : Option ℕ) (b : ℕ)
    → t ≡ t'
    → cs ≡ cs'
    → Holds t' end p b cs'
    → Holds t end p b cs
along {t} {t'} {cs} {cs'} end p b e d g =
    subst (λ x. Holds x end p b cs) (sym e) (subst (λ x. Holds t' end p b x) (sym d) g)

pub merge_next-Holds :
    (blocks : ℕ → Block) (end : ℕ) (p : Option ℕ) (b : ℕ) (c : Cell) (ys : List Cell)
    → Holds blocks end p b (c ∷ ys)
    → end < 4294967296
    → stop b (c ∷ ys) ≡ end
    → Holds (merge_next blocks b) end p b (with_next c ys)
      × ((i : ℕ) → i < b → merge_next blocks b i ≡ blocks i)
unfolding merge_next
merge_next-Holds blocks end p b c [] h m s =
    let none_next : (blocks b).next ≡ none =
      ap (λ (x : Block). x.next) h.1 ∙ link-none end (next_address b c) s in
    (rw (merge_next, none_next) h, λ i u. rw (merge_next, none_next) refl)
merge_next-Holds blocks end p b c (d ∷ ys) h m s = elim (Bool-cases d.free) [
  | inl f ↦
      let e = merge_next-free blocks end p b c d ys h m f in
      (
        along {cs' = joined c d ∷ ys} end p b e (rw f refl) (absorb-Holds blocks end p b c d ys h),
        λ i u.
            ap (λ (t : ℕ → Block). t i) e
            ∙ absorb-before blocks end b (joined c d).size (next_address b (joined c d)) i
                (omega arith) u,
      )
  | inr f ↦
      let e = merge_next-used blocks end p b c d ys h m f in
      (along {cs' = c ∷ d ∷ ys} end p b e (rw f refl) h, λ i u. ap (λ (t : ℕ → Block). t i) e)
]

pub merge_prev-Holds :
    (blocks : ℕ → Block) (end : ℕ) (p : Option ℕ) (a : ℕ) (x : Cell) (xs : List Cell) (c : Cell)
    (ys : List Cell)
    → Holds blocks end p a (x ∷ (xs ++ (c ∷ ys)))
    → end < 4294967296
    → Holds (merge_prev blocks (stop a (x ∷ xs))) end p a (with_prev x xs c ys)
      × ((i : ℕ) → i < a → merge_prev blocks (stop a (x ∷ xs)) i ≡ blocks i)
merge_prev-Holds blocks end p a x [] c ys h m = elim (Bool-cases x.free) [
  | inl f ↦
      let e = merge_prev-free blocks end p a x c ys h m f in
      (
        along {cs' = joined x c ∷ ys} end p a e (rw f refl) (absorb-Holds blocks end p a x c ys h),
        λ i u.
            ap (λ (t : ℕ → Block). t i) e
            ∙ absorb-before blocks end a (joined x c).size (next_address a (joined x c)) i
                (omega arith) u,
      )
  | inr f ↦
      let e = merge_prev-used blocks end p a x c ys h m f in
      (along {cs' = x ∷ c ∷ ys} end p a e (rw f refl) h, λ i u. ap (λ (t : ℕ → Block). t i) e)
]
merge_prev-Holds blocks end p a x (y ∷ xs) c ys h m =
    let rest = merge_prev-Holds blocks end (some a) (next_address a x) y xs c ys h.2 m in
    ((h.0, rest.1 a (omega arith) ∙ h.1, rest.0), λ i u. rest.1 i (omega arith))
