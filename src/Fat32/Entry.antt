-- ===== src/Fat32/Entry.antt =====
-- kernel/fat32.cpp, fat_get and fat_set: an entry of the table reads as it was written.
use sabaka_os.Common.{
  ℕ, ◌+◌, ◌*◌, ◌/◌, ◌%◌, ◌<◌, ◌≡◌, ◌≢◌, refl, ◌∙◌, sym, ap, ap₂, subst, some, Bool, true, false,
  not, ◌==◌, if◌then◌else◌, arith, inl, inr, Bool-cases, Option-cases,
}
use sabaka_os.Common.Words.{add32, mul32}
use sabaka_os.Fat32.Table.{
  Ata, Fat, le32, low28, put_entry, entry_sector, entry_offset, fat_flush_cache, load_sector,
  fat_read_sector, entry_of, fat_get, store_entry, set_copy, then_on, fat_set,
}

-- What the table relies on of the disk, whose sector numbers have 28 bits: a sector that is written
-- reads as it was written, and the others as before.
pub record AtaLaws {D : Type 0} (ata : Ata D) : Type 0 where
  pub read_written :
      (d d' : D) (lba : ℕ) (b : ℕ → ℕ)
      → lba < 268435456
      → ata.write_sector d lba b ≡ some d'
      → (b' : ℕ → ℕ) × (ata.read_sector d' lba ≡ some b') × ((k : ℕ) → k < 512 → b' k ≡ b k)
  pub read_other :
      (d d' : D) (lba : ℕ) (b : ℕ → ℕ) (lba' : ℕ)
      → lba < 268435456
      → lba' < 268435456
      → ata.write_sector d lba b ≡ some d'
      → lba' ≢ lba
      → ata.read_sector d' lba' ≡ ata.read_sector d lba'

put_entry-0 : (b : ℕ → ℕ) (off v : ℕ) → put_entry b off v off ≡ v % 256
put_entry-0 b off v = ground arith

put_entry-1 : (b : ℕ → ℕ) (off v : ℕ) → put_entry b off v (off + 1) ≡ v / 256 % 256
put_entry-1 b off v = ground arith

put_entry-2 : (b : ℕ → ℕ) (off v : ℕ) → put_entry b off v (off + 2) ≡ v / 65536 % 256
put_entry-2 b off v = ground arith

put_entry-3 :
    (b : ℕ → ℕ) (off v : ℕ)
    → put_entry b off v (off + 3) ≡ (v / 16777216 + b (off + 3) / 16 * 16) % 256
put_entry-3 b off v = ground arith

-- The value that is put there, of 28 bits.
entry_value :
    (b b' : ℕ → ℕ) (off v : ℕ)
    → off + 3 < 512
    → v < 268435456
    → ((k : ℕ) → k < 512 → b' k ≡ put_entry b off v k)
    → low28 (le32 b' off) ≡ v
entry_value b b' off v l s h = omega (
  arith,
  h off (omega arith) ∙ put_entry-0 b off v,
  h (off + 1) (omega arith) ∙ put_entry-1 b off v,
  h (off + 2) (omega arith) ∙ put_entry-2 b off v,
  h (off + 3) l ∙ put_entry-3 b off v,
)

-- The sectors of the two copies of an entry.
copy_0 : (f z s : ℕ) → f + z + s < 4294967296 → add32 (add32 f (mul32 0 z)) s ≡ add32 f s
copy_0 f z s w = let e : (0 * z) % 4294967296 ≡ 0 = omega arith in omega (arith, e)

copy_1 : (f z s : ℕ) → 0 < z → f + z + s < 4294967296 → add32 (add32 f (mul32 1 z)) s ≢ add32 f s
copy_1 f z s p w h = omega (arith, h)

module _ {D : Type 0} (ata : Ata D) (laws : AtaLaws ata) where
  -- What fat_read_sector may come to where the sector in memory is not changed.
  data ReadClean (st : Fat D) (lba : ℕ) : Fat D × Bool → Type 0 where
    read_fails : ReadClean st lba (st, false)
    in_cache : st.fat_cache_lba ≡ lba → ReadClean st lba (st, true)
    loaded :
        (b : ℕ → ℕ)
        → ata.read_sector st.disk lba ≡ some b
        → ReadClean st lba (record st { fat_cache = b; fat_cache_lba = lba }, true)

  fat_read_sector-ReadClean :
      (st : Fat D) (lba : ℕ)
      → st.fat_cache_dirty ≡ false
      → ReadClean st lba (fat_read_sector ata st lba)
  unfolding fat_read_sector fat_flush_cache
  fat_read_sector-ReadClean st lba c = elim (Bool-cases (st.fat_cache_lba == lba)) [
    | inl here ↦ rw here (in_cache (ground arith))
    | inr other ↦ elim (Option-cases (ata.read_sector st.disk lba)) [
      | inl e ↦ rw (other, c, e) read_fails
      | inr (b, e) ↦ rw (other, c, e) (loaded b e)
    ]
  ]

  -- What a round of fat_set may come to.
  data Stored (st : Fat D) (lba off v : ℕ) : Fat D × Bool → Type 0 where
    store_fails : (st' : Fat D) → Stored st lba off v (st', false)
    stored :
        (st' : Fat D) (b : ℕ → ℕ)
        → st'.fat_cache_dirty ≡ false
        → st'.fat_cache_lba ≡ lba
        → ata.read_sector st'.disk lba ≡ some b
        → low28 (le32 b off) ≡ v
        → ((l : ℕ)
            → l < 268435456
            → l ≢ lba
            → ata.read_sector st'.disk l ≡ ata.read_sector st.disk l)
        → st'.fat_start_lba ≡ st.fat_start_lba
        → st'.fat_size_sectors ≡ st.fat_size_sectors
        → Stored st lba off v (st', true)

  write_through :
      (st st1 : Fat D) (lba off v : ℕ)
      → st1.fat_cache_lba ≡ lba
      → st1.disk ≡ st.disk
      → st1.fat_start_lba ≡ st.fat_start_lba
      → st1.fat_size_sectors ≡ st.fat_size_sectors
      → off + 3 < 512
      → v < 268435456
      → lba < 268435456
      → Stored st lba off v (store_entry ata off v (st1, true))
  unfolding fat_flush_cache
  write_through st st1 lba off v c d f z l s w =
      elim (Option-cases
        (ata.write_sector st1.disk st1.fat_cache_lba (put_entry st1.fat_cache off v))) [
          | inl e ↦ rw (fat_flush_cache, e) (store_fails _)
          | inr (d', e) ↦
              let back =
                laws.read_written st1.disk d' st1.fat_cache_lba (put_entry st1.fat_cache off v)
                  (omega (arith, c)) e in
              rw (fat_flush_cache, e)
                (stored _ back.0 refl c (ap (ata.read_sector d') (sym c) ∙ back.1)
                  (entry_value st1.fat_cache back.0 off v l s back.2)
                  (λ k m n.
                    laws.read_other st1.disk d' st1.fat_cache_lba (put_entry st1.fat_cache off v) k
                      (omega (arith, c)) m e (omega (arith, c))
                    ∙ ap (λ (x : D). ata.read_sector x k) d)
                  f z)
        ]

  store_entry-Stored :
      (st : Fat D) (lba off v : ℕ) (y : Fat D × Bool)
      → ReadClean st lba y
      → off + 3 < 512
      → v < 268435456
      → lba < 268435456
      → Stored st lba off v (store_entry ata off v y)
  store_entry-Stored st lba off v y read_fails l s w = store_fails st
  store_entry-Stored st lba off v y (in_cache c) l s w =
      write_through st st lba off v c refl refl refl l s w
  store_entry-Stored st lba off v y (loaded b e) l s w =
      write_through st (record st { fat_cache = b; fat_cache_lba = lba }) lba off v refl refl refl
        refl l s w

  entry_fits : (cluster : ℕ) → entry_offset cluster + 3 < 512
  entry_fits cluster = omega arith

  abbrev copy_lba : Fat D → ℕ → ℕ → ℕ
  copy_lba st cluster k =
      add32 (add32 st.fat_start_lba (mul32 k st.fat_size_sectors)) (entry_sector cluster)

  set_copy-Stored :
      (st : Fat D) (cluster v k : ℕ)
      → st.fat_cache_dirty ≡ false
      → v < 268435456
      → copy_lba st cluster k < 268435456
      → Stored st (copy_lba st cluster k) (entry_offset cluster) v (set_copy ata cluster v k st)
  unfolding set_copy
  set_copy-Stored st cluster v k c s w =
      store_entry-Stored st (copy_lba st cluster k) (entry_offset cluster) v _
        (fat_read_sector-ReadClean st (copy_lba st cluster k) c) (entry_fits cluster) s w

  flush_clean : (st : Fat D) → st.fat_cache_dirty ≡ false → fat_flush_cache ata st ≡ (st, true)
  unfolding fat_flush_cache
  flush_clean st c = clean (not st.fat_cache_dirty) _ (ap not c)
    where
      clean : (t : Bool) (y : Fat D × Bool) → t ≡ true → (if t then (st, true) else y) ≡ (st, true)
      clean true y e = refl
      clean false y e = absurd (cc)

  load_some :
      (st : Fat D) (lba : ℕ) (b : ℕ → ℕ)
      → ata.read_sector st.disk lba ≡ some b
      → load_sector ata (st, true) lba ≡ (record st { fat_cache = b; fat_cache_lba = lba }, true)
  load_some st lba b r = rw (load_sector, r) refl

  -- fat_get where the entry's sector reads as `b`, and is not the one in memory.
  fat_get-reads :
      (st : Fat D) (cluster : ℕ) (b : ℕ → ℕ)
      → st.fat_cache_dirty ≡ false
      → st.fat_cache_lba ≢ add32 st.fat_start_lba (entry_sector cluster)
      → ata.read_sector st.disk (add32 st.fat_start_lba (entry_sector cluster)) ≡ some b
      → (fat_get ata st cluster).1 ≡ low28 (le32 b (entry_offset cluster))
  unfolding fat_get fat_read_sector
  fat_get-reads st cluster b c n r =
      let lba : ℕ = add32 st.fat_start_lba (entry_sector cluster) in
      let other : (st.fat_cache_lba == lba) ≡ false = ground arith in
      rw other (
        ap (λ (y : Fat D × Bool). (entry_of ata (entry_offset cluster) (load_sector ata y lba)).1)
          (flush_clean st c)
        ∙ ap (λ (y : Fat D × Bool). (entry_of ata (entry_offset cluster) y).1)
            (load_some st lba b r))

  -- The case of both copies.
  both_copies :
      (st st1 st2 : Fat D) (cluster v : ℕ) (b b2 : ℕ → ℕ)
      → 0 < st.fat_size_sectors
      → st.fat_start_lba + st.fat_size_sectors + entry_sector cluster < 268435456
      → ata.read_sector st1.disk (copy_lba st cluster 0) ≡ some b
      → low28 (le32 b (entry_offset cluster)) ≡ v
      → st1.fat_start_lba ≡ st.fat_start_lba
      → st1.fat_size_sectors ≡ st.fat_size_sectors
      → st2.fat_cache_dirty ≡ false
      → st2.fat_cache_lba ≡ copy_lba st1 cluster 1
      → ((l : ℕ)
          → l < 268435456
          → l ≢ copy_lba st1 cluster 1
          → ata.read_sector st2.disk l ≡ ata.read_sector st1.disk l)
      → st2.fat_start_lba ≡ st1.fat_start_lba
      → (fat_get ata st2 cluster).1 ≡ v
  both_copies st st1 st2 cluster v b b2 z w r e f1 z1 c2 l2 o f2 =
      let sector : ℕ = entry_sector cluster in
      let first : copy_lba st cluster 0 ≡ add32 st2.fat_start_lba sector =
        copy_0 st.fat_start_lba st.fat_size_sectors sector (omega arith)
        ∙ ap (λ k. add32 k sector) (sym (f2 ∙ f1)) in
      let apart : copy_lba st1 cluster 1 ≢ add32 st2.fat_start_lba sector = λ h.
        copy_1 st.fat_start_lba st.fat_size_sectors sector z (omega arith) (
          ap₂ (λ f k. add32 (add32 f (mul32 1 k)) sector) (sym f1) (sym z1)
          ∙ h
          ∙ ap (λ k. add32 k sector) (f2 ∙ f1)) in
      fat_get-reads st2 cluster b c2 (λ h. apart (sym l2 ∙ h))
        (o _ (omega (arith, f1, f2)) (λ h. apart (sym h))
          ∙ ap (ata.read_sector st1.disk) (sym first)
          ∙ r)
      ∙ e

-- After fat_set has written both copies of the table, fat_get gives the 28 lower bits of the value
-- that was set: on a disk where a sector reads as it was written, where the sector in memory holds
-- no change that is not on the disk, for a mounted file system both copies of whose entry have
-- sector numbers that fit the 28 bits of the disk driver.
pub fat_get-fat_set :
    {D : Type 0} (ata : Ata D) (st st' : Fat D) (cluster value : ℕ)
    → AtaLaws ata
    → st.fat_cache_dirty ≡ false
    → 0 < st.fat_size_sectors
    → st.fat_start_lba + st.fat_size_sectors + entry_sector cluster < 268435456
    → fat_set ata st cluster value ≡ (st', true)
    → (fat_get ata st' cluster).1 ≡ low28 value
unfolding fat_set
fat_get-fat_set {D} ata st st' cluster value laws c z w e =
    first (set_copy ata cluster (low28 value) 0 st)
      (set_copy-Stored ata laws st cluster (low28 value) 0 c (omega arith) (omega arith)) e
  where
    second :
        (st1 : Fat D) (b : ℕ → ℕ) (y : Fat D × Bool)
        → ata.read_sector st1.disk (copy_lba ata laws st cluster 0) ≡ some b
        → low28 (le32 b (entry_offset cluster)) ≡ low28 value
        → st1.fat_start_lba ≡ st.fat_start_lba
        → st1.fat_size_sectors ≡ st.fat_size_sectors
        → Stored ata laws st1
            (copy_lba ata laws st1 cluster 1)
            (entry_offset cluster)
            (low28 value)
            y
        → y ≡ (st', true)
        → (fat_get ata st' cluster).1 ≡ low28 value
    second st1 b y r e f1 z1 (store_fails st2) q = absurd (cc (ap (λ (p : Fat D × Bool). p.1) q))
    second st1 b y r e f1 z1 (stored st2 b2 c2 l2 r2 e2 o f2 z2) q =
        subst (λ (k : Fat D). (fat_get ata k cluster).1 ≡ low28 value)
          (ap (λ (p : Fat D × Bool). p.0) q)
          (both_copies ata laws st st1 st2 cluster (low28 value) b b2 z w r e f1 z1 c2 l2 o f2)

    first :
        (y : Fat D × Bool)
        → Stored ata laws st (copy_lba ata laws st cluster 0) (entry_offset cluster) (low28 value) y
        → then_on ata y (set_copy ata cluster (low28 value) 1) ≡ (st', true)
        → (fat_get ata st' cluster).1 ≡ low28 value
    first y (store_fails st1) q = absurd (cc (ap (λ (p : Fat D × Bool). p.1) q))
    first y (stored st1 b c1 l1 r1 e1 o f1 z1) q =
        second st1 b (set_copy ata cluster (low28 value) 1 st1) r1 e1 f1 z1
          (set_copy-Stored ata laws st1 cluster (low28 value) 1 c1 (omega arith)
            (omega (arith, f1, z1)))
          q
