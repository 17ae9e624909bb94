-- ===== src/Pmm/Tests.antt =====
-- Examples for the page allocator of kernel/pmm.cpp.
use sabaka_os.Common.{count_below, ℕ, ◌≡◌, ◌⊎◌, refl, arith, none, some, ◌==◌, if◌then◌else◌}
use sabaka_os.Pmm.{Pmm, bitmap_test, pmm_alloc}
use sabaka_os.Pmm.Count.{IsValid, IsUsed, Allocated, AllUsed, pmm_alloc_lem}

-- Sixteen pages, of which the first eight and page 9 are in use.
abbrev nine_used : Pmm
nine_used = record {
  bitmap = λ i. if i == 0 then 255 else if i == 1 then 2 else 0;
  total_pages = 16;
  used_pages = 9;
  bitmap_size = 2;
}

nine_used-IsValid : IsValid nine_used
unfolding count_below bitmap_test
nine_used-IsValid = record { bytes = λ k. ground arith; pages_fit = omega arith; counted = refl }

page_nine-IsUsed : IsUsed nine_used 36864
unfolding IsUsed bitmap_test
page_nine-IsUsed = (omega arith, refl)

pmm_alloc_lem_example :
    ((addr : ℕ) × (s' : Pmm) × (pmm_alloc nine_used ≡ (s', some addr))
      × Allocated nine_used s' addr)
    ⊎ ((pmm_alloc nine_used ≡ (nine_used, none)) × AllUsed nine_used)
unfolding bitmap_test
pmm_alloc_lem_example = pmm_alloc_lem nine_used-IsValid refl
