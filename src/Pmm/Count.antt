-- ===== src/Pmm/Count.antt =====
-- kernel/pmm.cpp: that the count of used pages is the number of set bits, and what `pmm_alloc` and
-- `pmm_free` do to it.
use sabaka_os.Common.{
  zero, suc, ℕ, ◌+◌, ◌-◌, ◌*◌, ◌/◌, ◌%◌, ◌<◌, ◌≤◌, ◌≡◌, ◌≢◌, ◌⊎◌, refl, sym, true, false, not, ◌==◌,
  if◌then◌else◌, arith, Bool-cases, inl, inr, none, some, Option-cases, find_index, find_index-some,
  find_index-none, IsFirst, count_below, count_below-le, count_below_add,
}
use sabaka_os.Pmm.{page_size, Pmm, bitmap_set, bitmap_clear, bitmap_test, pmm_alloc, pmm_free}
use sabaka_os.Pmm.Bitmap.{
  IsBytes, bitmap_test-bitmap_set, bitmap_test-bitmap_clear, bitmap_set-IsBytes,
  bitmap_clear-IsBytes,
}

-- The bitmap has 32768 bytes, so there are at most 2 ^ 18 pages.
pub record IsValid (s : Pmm) : Type 0 where
  pub bytes : IsBytes s.bitmap
  pub pages_fit : s.total_pages ≤ 262144
  pub counted : s.used_pages ≡ count_below (bitmap_test s.bitmap) s.total_pages

-- The page of an address is in range and marked as used.
unfoldable pub IsUsed : Pmm → ℕ → Type 0
IsUsed s addr =
    (addr / page_size < s.total_pages) × (bitmap_test s.bitmap (addr / page_size) ≡ true)

abbrev pub AllUsed : Pmm → Type 0
AllUsed s = (j : ℕ) → j < s.total_pages → bitmap_test s.bitmap j ≡ true

-- What an allocation hands out: the address of a page that was free and is the only one whose bit
-- changes.
pub record Allocated (s s' : Pmm) (addr : ℕ) : Type 0 where
  pub page : ℕ
  pub at_page : addr ≡ page * page_size
  pub in_range : page < s.total_pages
  pub was_free : bitmap_test s.bitmap page ≡ false
  pub now_used : bitmap_test s'.bitmap page ≡ true
  pub others : (j : ℕ) → j ≢ page → bitmap_test s'.bitmap j ≡ bitmap_test s.bitmap j
  pub one_more : s'.used_pages ≡ s.used_pages + 1
  pub valid : IsValid s'

module _ {s : Pmm} (v : IsValid s) where
  set_others : (i j : ℕ) → j ≢ i → bitmap_test (bitmap_set s.bitmap i) j ≡ bitmap_test s.bitmap j
  set_others i j ne = ground (arith, bitmap_test-bitmap_set s.bitmap i j v.bytes)

  clear_others :
      (i j : ℕ) → j ≢ i → bitmap_test (bitmap_clear s.bitmap i) j ≡ bitmap_test s.bitmap j
  clear_others i j ne = ground (arith, bitmap_test-bitmap_clear s.bitmap i j v.bytes)

  count_set :
      (i : ℕ)
      → i < s.total_pages
      → bitmap_test s.bitmap i ≡ false
      → count_below (bitmap_test (bitmap_set s.bitmap i)) s.total_pages ≡ s.used_pages + 1
  count_set i l free = rw v.counted (
      count_below_add (bitmap_test s.bitmap) (bitmap_test (bitmap_set s.bitmap i)) i s.total_pages l
        free (ground (arith, bitmap_test-bitmap_set s.bitmap i i v.bytes))
        (λ j k ne. sym (set_others i j ne)))

  count_clear :
      (i : ℕ)
      → i < s.total_pages
      → bitmap_test s.bitmap i ≡ true
      → s.used_pages ≡ count_below (bitmap_test (bitmap_clear s.bitmap i)) s.total_pages + 1
  count_clear i l used = rw v.counted (
      count_below_add (bitmap_test (bitmap_clear s.bitmap i)) (bitmap_test s.bitmap) i s.total_pages
        l (ground (arith, bitmap_test-bitmap_clear s.bitmap i i v.bytes)) used
        (λ j k ne. clear_others i j ne))

  alloc_at :
      (i : ℕ)
      → IsFirst (λ k. not (bitmap_test s.bitmap k)) 0 (0 + s.total_pages) i
      → Allocated s
          (record s {
            bitmap = bitmap_set s.bitmap i;
            used_pages = (s.used_pages + 1) % 4294967296;
          })
          (i * page_size % 4294967296)
  alloc_at i f =
      let free : bitmap_test s.bitmap i ≡ false = ground (arith, f.passes) in
      let l : i < s.total_pages = ground (arith, f.below) in
      let le : s.used_pages ≤ s.total_pages = rw v.counted (count_below-le _ _) in
      let more : (s.used_pages + 1) % 4294967296 ≡ s.used_pages + 1 = omega (arith, v.pages_fit) in
      record {
        page = i;
        at_page = omega (arith, v.pages_fit);
        in_range = l;
        was_free = free;
        now_used = ground (arith, bitmap_test-bitmap_set s.bitmap i i v.bytes);
        others = set_others i;
        one_more = more;
        valid = record {
          bytes = bitmap_set-IsBytes s.bitmap i v.bytes;
          pages_fit = v.pages_fit;
          counted = rw (more, count_set i l free) refl;
        };
      }

-- With at most the 2 ^ 18 pages that the bitmap has bits for, their used ones counted, and page 0,
-- whose address is a null pointer, in use, as it is after pmm_init: `pmm_alloc` hands out a page that
-- was free and marks it and no other, with the count one higher; where it hands out none, every page
-- is in use and nothing has changed.
pub pmm_alloc_lem :
    {s : Pmm}
    → IsValid s
    → bitmap_test s.bitmap 0 ≡ true
    → ((addr : ℕ) × (s' : Pmm) × (pmm_alloc s ≡ (s', some addr)) × Allocated s s' addr)
      ⊎ ((pmm_alloc s ≡ (s, none)) × AllUsed s)
unfolding pmm_alloc
pmm_alloc_lem {s} v zero_used =
    elim (Option-cases (find_index (λ i. not (bitmap_test s.bitmap i)) 0 s.total_pages)) [
      | inl e ↦ inr (
        rw (e, pmm_alloc) refl,
        λ j l. ground (arith, find_index-none _ 0 _ e j (omega arith) (omega arith)),
      )
      | inr (i, e) ↦
          let f = find_index-some (λ k. not (bitmap_test s.bitmap k)) 0 s.total_pages e in
          let some_page : (i * 4096 % 4294967296 == 0) ≡ false = not_null i f in
          inl (_, _, rw (e, pmm_alloc, some_page) refl, alloc_at v i f)
    ]
  where
    not_null :
        (i : ℕ)
        → IsFirst (λ k. not (bitmap_test s.bitmap k)) 0 (0 + s.total_pages) i
        → (i * 4096 % 4294967296 == 0) ≡ false
    not_null zero f = let p = f.passes in absurd (cc)
    not_null (suc i) f = let b = f.below in ground (arith, v.pages_fit)

-- `pmm_free` of an address in a used page clears the page's bit and no other and lowers the count
-- by one, and the count is the number of set bits again.
pub pmm_free_lem :
    {s : Pmm} (addr : ℕ)
    → IsValid s
    → IsUsed s addr
    → let s' = pmm_free s addr in
      IsValid s'
      × (s'.used_pages + 1 ≡ s.used_pages)
      × ((j : ℕ)
          → bitmap_test s'.bitmap j
            ≡ (if addr / page_size == j then false else bitmap_test s.bitmap j))
unfolding pmm_free IsUsed
pmm_free_lem {s} addr v (l, u) =
    let i = addr / page_size in
    let less = count_clear v i l u in
    let le : s.used_pages ≤ s.total_pages = rw v.counted (count_below-le _ _) in
    let one : (s.used_pages + 4294967296 - 1) % 4294967296 + 1 ≡ s.used_pages =
      omega (arith, v.pages_fit) in
    rw u (
      record {
        bytes = bitmap_clear-IsBytes s.bitmap i v.bytes;
        pages_fit = v.pages_fit;
        counted = omega arith;
      },
      one,
      λ j. bitmap_test-bitmap_clear s.bitmap i j v.bytes,
    )

-- A page freed twice is freed once: the second call changes nothing.
pub pmm_free_twice :
    {s : Pmm} (addr : ℕ) → IsValid s → pmm_free (pmm_free s addr) addr ≡ pmm_free s addr
unfolding pmm_free
pmm_free_twice {s} addr v =
    let gone = bitmap_test-bitmap_clear s.bitmap (addr / page_size) (addr / page_size) v.bytes in
    elim (Bool-cases (bitmap_test s.bitmap (addr / page_size))) [
      | inl u ↦ ground (arith, gone)
      | inr f ↦ ground arith
    ]
