-- ===== src/Fat32/Table.antt =====
-- kernel/fat32.cpp, cluster_to_lba to cluster_write, and fat32_init. The disk is behind the interface
-- of kernel/ata.cpp: a sector is a function of the place of a byte, and a call that fails leaves the
-- buffer and the disk alone.
use sabaka_os.Common.{
  ℕ, zero, suc, ◌+◌, ◌-◌, ◌*◌, ◌/◌, ◌%◌, Option, none, some, Bool, true, false, not, ◌&&◌, ◌||◌,
  ltb, leb, ◌==◌, if◌then◌else◌, update,
}
use sabaka_os.Common.Words.{u8, add32, sub32, mul32}
use sabaka_os.KString.Memory.{copy_into}

-- The calls of kernel/ata.cpp for one sector, on a disk whose state is a `D`.
pub record Ata (D : Type 0) : Type 0 where
  pub is_present : D → Bool
  pub read_sector : D → ℕ → Option (ℕ → ℕ)
  pub write_sector : D → ℕ → (ℕ → ℕ) → Option D
  pub sectors_count : D → ℕ

abbrev pub fat32_eof : ℕ
fat32_eof = 0x0FFFFFFF

pub record Fat (D : Type 0) : Type 0 where
  pub disk : D
  pub mounted : Bool  -- s_mounted
  pub fat_start_lba : ℕ
  pub fat_size_sectors : ℕ
  pub data_start_lba : ℕ
  pub root_cluster : ℕ
  pub sectors_per_clust : ℕ
  pub bytes_per_clust : ℕ
  pub fat_cache : ℕ → ℕ
  pub fat_cache_lba : ℕ
  pub fat_cache_dirty : Bool

-- Two and four bytes, the least first. The bytes do not overlap, so that `|` is a sum.
abbrev pub le16 : (ℕ → ℕ) → ℕ → ℕ
le16 b i = b i + b (i + 1) * 256

abbrev pub le32 : (ℕ → ℕ) → ℕ → ℕ
le32 b i = b i + b (i + 1) * 256 + b (i + 2) * 65536 + b (i + 3) * 16777216

-- `v & 0x0FFFFFFF`
abbrev pub low28 : ℕ → ℕ
low28 v = v % 268435456

-- The four bytes of an entry at `off`; the four upper bits of the last one stay.
abbrev pub put_entry : (ℕ → ℕ) → ℕ → ℕ → ℕ → ℕ
put_entry b off v =
    let last = v / 16777216 + b (off + 3) / 16 * 16 in
    update
      (update (update (update b off (u8 v)) (off + 1) (u8 (v / 256))) (off + 2) (u8 (v / 65536)))
      (off + 3) (u8 last)

abbrev pub entry_sector : ℕ → ℕ
entry_sector cluster = mul32 cluster 4 / 512

abbrev pub entry_offset : ℕ → ℕ
entry_offset cluster = mul32 cluster 4 % 512

module _ {D : Type 0} (ata : Ata D) where
  abbrev pub cluster_to_lba : Fat D → ℕ → ℕ
  cluster_to_lba st cluster = add32 st.data_start_lba (mul32 (sub32 cluster 2) st.sectors_per_clust)

  unfoldable pub fat_flush_cache : Fat D → Fat D × Bool
  fat_flush_cache st =
      let written : Fat D × Bool = elim (ata.write_sector st.disk st.fat_cache_lba st.fat_cache) [
        | none ↦ (st, false)
        | some d ↦ (record st { disk = d; fat_cache_dirty = false }, true)
      ] in
      if not st.fat_cache_dirty then (st, true) else written

  -- fat_read_sector after the flush.
  abbrev pub load_sector : Fat D × Bool → ℕ → Fat D × Bool
  load_sector (st, false) lba = (st, false)
  load_sector (st, true) lba = elim (ata.read_sector st.disk lba) [
    | none ↦ (st, false)
    | some b ↦ (record st { fat_cache = b; fat_cache_lba = lba }, true)
  ]

  unfoldable pub fat_read_sector : Fat D → ℕ → Fat D × Bool
  fat_read_sector st lba =
      if st.fat_cache_lba == lba then (st, true) else load_sector (fat_flush_cache st) lba

  abbrev pub entry_of : ℕ → Fat D × Bool → Fat D × ℕ
  entry_of off (st, false) = (st, 0)
  entry_of off (st, true) = (st, low28 (le32 st.fat_cache off))

  unfoldable pub fat_get : Fat D → ℕ → Fat D × ℕ
  fat_get st cluster =
      entry_of (entry_offset cluster)
        (fat_read_sector st (add32 st.fat_start_lba (entry_sector cluster)))

  -- A round of fat_set once the sector is read.
  abbrev pub store_entry : (off value : ℕ) → Fat D × Bool → Fat D × Bool
  store_entry off value (st, false) = (st, false)
  store_entry off value (st, true) =
      fat_flush_cache
        (record st { fat_cache = put_entry st.fat_cache off value; fat_cache_dirty = true })

  unfoldable pub set_copy : ℕ → ℕ → ℕ → Fat D → Fat D × Bool
  set_copy cluster value fat_num st = store_entry (entry_offset cluster) value (
      fat_read_sector st
        (add32 (add32 st.fat_start_lba (mul32 fat_num st.fat_size_sectors)) (entry_sector cluster)))

  abbrev pub then_on : Fat D × Bool → (Fat D → Fat D × Bool) → Fat D × Bool
  then_on (st, false) f = (st, false)
  then_on (st, true) f = f st

  -- Both copies of the table, the second only where the first is written.
  unfoldable pub fat_set : Fat D → ℕ → ℕ → Fat D × Bool
  fat_set st cluster value =
      then_on (set_copy cluster (low28 value) 0 st) (set_copy cluster (low28 value) 1)

  -- The loop of fat_alloc_cluster over `n` clusters from `c` on.
  unfoldable pub alloc_loop : ℕ → ℕ → Fat D → Fat D × ℕ
  alloc_loop zero c st = (st, 0)
  alloc_loop (suc n) c st =
      let (st', v) = fat_get st c in
      let rest = alloc_loop n (c + 1) st' in
      if v == 0 then ((fat_set st' c fat32_eof).0, c) else rest

  -- For a cluster of one sector at least.
  unfoldable pub fat_alloc_cluster : Fat D → Fat D × ℕ
  fat_alloc_cluster st = alloc_loop (ata.sectors_count st.disk / st.sectors_per_clust - 2) 2 st

  abbrev pub in_chain : ℕ → Bool
  in_chain c = leb 2 c && ltb c fat32_eof

  -- `none` is a lack of fuel.
  unfoldable pub fat_free_chain : ℕ → Fat D → ℕ → Option (Fat D)
  fat_free_chain zero st start = none
  fat_free_chain (suc fuel) st start =
      let (st', next) = fat_get st start in
      let rest = fat_free_chain fuel (fat_set st' start 0).0 next in
      if in_chain start then rest else some st

  -- The loop of cluster_read over `n` sectors from `i` on; `none` is a failure.
  unfoldable pub read_sectors : Fat D → ℕ → ℕ → ℕ → (ℕ → ℕ) → Option (ℕ → ℕ)
  read_sectors st lba zero i buf = some buf
  read_sectors st lba (suc n) i buf = elim (ata.read_sector st.disk (add32 lba i)) [
    | none ↦ none
    | some b ↦ read_sectors st lba n (i + 1) (copy_into buf (i * 512) b 0 512)
  ]

  unfoldable pub cluster_read : Fat D → ℕ → (ℕ → ℕ) → Option (ℕ → ℕ)
  cluster_read st cluster buf =
      read_sectors st (cluster_to_lba st cluster) st.sectors_per_clust 0 buf

  unfoldable pub write_sectors : ℕ → ℕ → ℕ → (ℕ → ℕ) → Fat D → Fat D × Bool
  write_sectors lba zero i buf st = (st, true)
  write_sectors lba (suc n) i buf st =
      elim (ata.write_sector st.disk (add32 lba i) (λ k. buf (i * 512 + k))) [
        | none ↦ (st, false)
        | some d ↦ write_sectors lba n (i + 1) buf (record st { disk = d })
      ]

  unfoldable pub cluster_write : Fat D → ℕ → (ℕ → ℕ) → Fat D × Bool
  cluster_write st cluster buf =
      write_sectors (cluster_to_lba st cluster) st.sectors_per_clust 0 buf st

  -- `part_type == 0x0B || ...`
  abbrev pub is_fat_partition : ℕ → Bool
  is_fat_partition t = t == 0x0B || (t == 0x0C || (t == 0x1B || t == 0x1C))

  -- fat32_init from the boot sector on.
  abbrev pub mount : Fat D → ℕ → (ℕ → ℕ) → Fat D × Bool
  mount st partition_lba sector =
      let fat_start = add32 partition_lba (le16 sector 14) in
      let fat_size = le32 sector 36 in
      let num_fats = sector 16 in
      if not (le16 sector 11 == 512) || (num_fats == 0 || fat_size == 0) then (st, false) else (
        record st {
          sectors_per_clust = sector 13;
          bytes_per_clust = mul32 (sector 13) 512;
          fat_start_lba = fat_start;
          fat_size_sectors = fat_size;
          data_start_lba = add32 fat_start (mul32 num_fats fat_size);
          root_cluster = le32 sector 44;
          fat_cache_lba = 0xFFFFFFFF;
          fat_cache_dirty = false;
          mounted = true;
        },
        true,
      )

  unfoldable pub fat32_init : Fat D → Fat D × Bool
  fat32_init st =
      let st' : Fat D = record st { mounted = false } in
      let partition : (ℕ → ℕ) → Fat D × Bool = λ (first : ℕ → ℕ).
        (elim (ata.read_sector st.disk (le32 first 454)) [
          | none ↦ (st', false)
          | some boot ↦ mount st' (le32 first 454) boot
        ]) in
      let signed : (ℕ → ℕ) → Fat D × Bool = λ (first : ℕ → ℕ).
        if not (first 510 == 0x55) || not (first 511 == 0xAA)
        then (st', false)
        else if is_fat_partition (first 450)
        then partition first
        else mount st' 0 first in
      let read : Fat D × Bool = elim (ata.read_sector st.disk 0) [
        | none ↦ (st', false)
        | some first ↦ signed first
      ] in
      if not (ata.is_present st.disk) then (st', false) else read
