-- ===== src/Vfs/Content.antt =====
-- kernel/vfs.cpp: what a file holds after a write that ends within its buffer.
use sabaka_os.Common.{
  ℕ, ◌+◌, ◌-◌, ◌≤◌, ◌≡◌, ◌%◌, inl, inr, refl, ◌∙◌, ap, Option, none, some, Bool, true, false, arith,
  update, update_self, subst, sym, slice, leb, ltb, Bool-cases, Option-cases, if◌then◌else◌, List,
  not,
}
use sabaka_os.Common.Int.{ℤ, pos}
use sabaka_os.KString.Memory.{copy_into}
use sabaka_os.KString.MemoryLaws.{slice-copy_into}
use sabaka_os.Vfs.Nodes.{
  VfsNode, Vfs, vfs_file, is_dir, ramfs_ops, put_node, ramfs_read, ramfs_write, write_bytes,
  vfs_max_file_data,
}
use sabaka_os.Vfs.Path.{vfs_read, vfs_write}

-- The buffer of a file, or the cleared one that it gets.
abbrev pub buffer_or_new : Option (ℕ → ℕ) → ℕ → ℕ
buffer_or_new none = λ k. 0
buffer_or_new (some d) = d

abbrev written : VfsNode → (ℕ → ℕ) → ℕ → ℕ → ℕ → VfsNode
written n bytes offset size end = record n {
  bytes = some (copy_into (buffer_or_new n.bytes) offset bytes 0 size);
  size = if ltb n.size end then end else n.size;
}

write_bytes_lem :
    (st : Vfs) (i : ℕ) (bytes : ℕ → ℕ) (offset size end : ℕ)
    → write_bytes true st i bytes offset size end
      ≡ (put_node st i (written (st.pool i) bytes offset size end), pos size)
unfolding write_bytes
write_bytes_lem st i bytes offset size end = elim (Option-cases (st.pool i).bytes) [
  | inl e ↦ rw (write_bytes, e) refl
  | inr (d, e) ↦ rw (write_bytes, e) refl
]

second {ℓ} :
    {A : Type ℓ} (b c : Bool) (x y z : A)
    → b ≡ false
    → c ≡ true
    → (if b then x else if c then y else z) ≡ y
second false true x y z p q = refl
second false false x y z p q = absurd (cc)
second true c x y z p q = absurd (cc)

ramfs_write_fits :
    (st : Vfs) (i : ℕ) (bytes : ℕ → ℕ) (offset size : ℕ)
    → (st.pool i).type ≡ vfs_file
    → offset + size ≤ vfs_max_file_data
    → ramfs_write true st (some i) bytes offset size
      ≡ (put_node st i (written (st.pool i) bytes offset size (offset + size)), pos size)
unfolding ramfs_write
ramfs_write_fits st i bytes offset size t l =
    let e : (offset + size) % 4294967296 ≡ offset + size = omega arith in
    let fits : not (ltb 4096 (offset + size)) ≡ true = ground arith in
    rw e (
      second (is_dir (st.pool i).type) (not (ltb 4096 (offset + size))) _ _ _ (ap is_dir t) fits
      ∙ write_bytes_lem st i bytes offset size (offset + size))

ramfs_read_at :
    (st : Vfs) (i : ℕ) (d : ℕ → ℕ) (offset size : ℕ)
    → (st.pool i).type ≡ vfs_file
    → (st.pool i).bytes ≡ some d
    → offset + size ≤ (st.pool i).size
    → ramfs_read st (some i) offset size ≡ (slice d offset size, pos size)
unfolding ramfs_read
ramfs_read_at st i d offset size t b l =
    let all : (if ltb ((st.pool i).size - offset) size then (st.pool i).size - offset else size)
        ≡ size =
      ground arith in
    elim (Bool-cases (leb (st.pool i).size offset)) [
      | inl at_end ↦ let e : size ≡ 0 = ground arith in rw (ramfs_read, t, at_end, e) refl
      | inr inside ↦ rw (ramfs_read, t, inside, b, all) refl
    ]

through :
    (st : Vfs) (i : ℕ) (bytes : ℕ → ℕ) (offset size : ℕ)
    → (st.pool i).ops ≡ some ramfs_ops
    → vfs_write true st (some i) bytes offset size ≡ ramfs_write true st (some i) bytes offset size
unfolding vfs_write
through st i bytes offset size o = rw (vfs_write, o) refl

-- A write to a file of the file system in memory that ends within 4096 bytes, where a buffer can be
-- had, reports its size, and the file gives back the bytes, at the place where they were written.
pub vfs_read-vfs_write :
    (st : Vfs) (i : ℕ) (bytes : ℕ → ℕ) (offset size : ℕ)
    → (st.pool i).type ≡ vfs_file
    → (st.pool i).ops ≡ some ramfs_ops
    → offset + size ≤ vfs_max_file_data
    → ((vfs_write true st (some i) bytes offset size).1 ≡ pos size)
      × (vfs_read (vfs_write true st (some i) bytes offset size).0 (some i) offset size
          ≡ (slice bytes 0 size, pos size))
unfolding vfs_read vfs_write
vfs_read-vfs_write st i bytes offset size t o l =
    let n = written (st.pool i) bytes offset size (offset + size) in
    let here : update st.pool i n i ≡ n = update_self st.pool i n in
    let wrote : vfs_write true st (some i) bytes offset size ≡ (put_node st i n, pos size) =
      through st i bytes offset size o ∙ ramfs_write_fits st i bytes offset size t l in
    let ops' : (update st.pool i n i).ops ≡ some ramfs_ops = ap (λ (x : VfsNode). x.ops) here ∙ o in
    let grown : offset + size ≤ n.size = ground arith in
    let read =
      ramfs_read_at (put_node st i n) i
        (copy_into (buffer_or_new (st.pool i).bytes) offset bytes 0 size) offset size
        (ap (λ (x : VfsNode). x.type) here ∙ t) (ap (λ (x : VfsNode). x.bytes) here)
        (subst (λ (x : VfsNode). offset + size ≤ x.size) (sym here) grown) in
    (
      ap (λ (r : Vfs × ℤ). r.1) wrote,
      ap (λ (r : Vfs × ℤ). vfs_read r.0 (some i) offset size) wrote
          ∙ (rw (vfs_read, ops') read)
          ∙ ap (λ (b : List ℕ). (b, pos size))
              (slice-copy_into (buffer_or_new (st.pool i).bytes) offset bytes 0 size),
    )
