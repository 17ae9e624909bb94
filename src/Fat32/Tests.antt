-- ===== src/Fat32/Tests.antt =====
-- kernel/fat32.cpp on a disk of bytes, and on a name.
use sabaka_os.Common.{
  ◌∙◌, ℕ, ◌≡◌, refl, sym, ap, [], ◌∷◌, some, true, false, arith, update, update_self, update_ne,
}
use sabaka_os.Fat32.Table.{
  Ata, Fat, fat_get, fat_set, fat_flush_cache, fat_read_sector, set_copy, fat_alloc_cluster,
  alloc_loop,
}
use sabaka_os.Fat32.Entry.{AtaLaws, fat_get-fat_set}
use sabaka_os.Fat32.ShortName.{parse_83_name, make_83}
use sabaka_os.Fat32.NameLaws.{parse_83_name-make_83}

-- A disk that does not fail, with 100 sectors.
abbrev Disk : Type 0
Disk = ℕ → ℕ → ℕ

abbrev ata : Ata Disk
ata = record {
  is_present = λ d. true;
  read_sector = λ d lba. some (d lba);
  write_sector = λ d lba b. some (update d lba b);
  sectors_count = λ d. 100;
}

some_same : {A : Type 0} (a b : A) → some a ≡ some b → a ≡ b
some_same a b e = cc

ata-AtaLaws : AtaLaws ata
ata-AtaLaws = record {
  read_written = λ d d' lba b fits e. (
    d' lba,
    refl,
    λ k l.
        ap (λ (x : ℕ → ℕ). x k)
          (ap (λ (x : ℕ → ℕ → ℕ). x lba) (sym (some_same (update d lba b) d' e))
            ∙ update_self d lba b),
  );
  read_other = λ d d' lba b lba' fits fits' e n. ap some (
      ap (λ (x : ℕ → ℕ → ℕ). x lba') (sym (some_same (update d lba b) d' e))
      ∙ update_ne d lba lba' b (λ h. n (sym h)));
}

abbrev mounted : Fat Disk
mounted = record {
  disk = λ lba k. 0;
  mounted = true;
  fat_start_lba = 32;
  fat_size_sectors = 4;
  data_start_lba = 40;
  root_cluster = 2;
  sectors_per_clust = 1;
  bytes_per_clust = 512;
  fat_cache = λ k. 0;
  fat_cache_lba = 0xFFFFFFFF;
  fat_cache_dirty = false;
}

abbrev after_set : Fat Disk
after_set = (fat_set ata mounted 5 0xF1234567).0

fat_get-fat_set_example : (fat_get ata after_set 5).1 ≡ 0x1234567
unfolding fat_set set_copy fat_read_sector fat_flush_cache
fat_get-fat_set_example =
    fat_get-fat_set ata mounted after_set 5 0xF1234567 ata-AtaLaws refl (omega arith) (omega arith)
      refl

allocates : (fat_alloc_cluster ata mounted).1 ≡ 2
unfolding fat_alloc_cluster alloc_loop fat_get fat_read_sector fat_flush_cache
allocates = refl

parse_83_name-make_83_example :
    parse_83_name (make_83 (b'r' ∷ b'1' ∷ b'.' ∷ b't' ∷ b'x' ∷ []))
    ≡ b'R' ∷ b'1' ∷ b'.' ∷ b'T' ∷ b'X' ∷ []
parse_83_name-make_83_example =
    parse_83_name-make_83 (b'r' ∷ b'1' ∷ []) b't' (b'x' ∷ []) (omega arith) (omega arith)
      (omega arith, (omega arith, refl)) (omega arith, (omega arith, refl))
      (omega arith, (omega arith, refl))
