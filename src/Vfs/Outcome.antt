-- ===== src/Vfs/Outcome.antt =====
-- kernel/vfs.cpp: what any write to a file in memory changes and reports.
use sabaka_os.Common.{
  ◌<◌, ◌≢◌, ◌⊎◌, ℕ, ◌+◌, ◌-◌, ◌≤◌, ◌≡◌, inl, inr, refl, ◌∙◌, ap, Option, none, some, Bool, true,
  false, arith, subst, sym, leb, ltb, Bool-cases, Option-cases, if◌then◌else◌, not,
}
use sabaka_os.Common.Int.{ℤ, pos, minus_one}
use sabaka_os.Common.Words.{add32}
use sabaka_os.KString.Memory.{copy_into}
use sabaka_os.KString.MemoryLaws.{copy_into_in, copy_into_out, Outside}
use sabaka_os.Vfs.Nodes.{
  VfsNode, Vfs, VfsNodeType, vfs_file, vfs_dir, is_dir, ramfs_ops, put_node, ramfs_write,
  write_bytes, vfs_max_file_data,
}
use sabaka_os.Vfs.Tree.{Alike}
use sabaka_os.Vfs.Path.{vfs_write}
use sabaka_os.Vfs.Content.{buffer_or_new}

-- How many bytes a write takes: all, or those up to the end of the buffer.
abbrev pub taken : ℕ → ℕ → ℕ
taken offset size =
    if leb (offset + size) vfs_max_file_data then size else vfs_max_file_data - offset

-- The node of a file after a write of the first `size` bytes of `bytes` at `offset`: the bytes are
-- there, those around them are as before, or 0 in a new buffer, and nothing else differs but the
-- size, which grows to the end of the write.
pub record Wrote (n n' : VfsNode) (bytes : ℕ → ℕ) (offset size : ℕ) : Type 0 where
  pub buf : ℕ → ℕ
  pub bytes_eq : n'.bytes ≡ some buf
  pub new_bytes : (k : ℕ) → k < size → buf (offset + k) ≡ bytes k
  pub old_bytes : (k : ℕ) → Outside offset size k → buf k ≡ buffer_or_new n.bytes k
  pub size_eq : n'.size ≡ (if ltb n.size (offset + size) then offset + size else n.size)
  pub name_eq : n'.name ≡ n.name
  pub ops_eq : n'.ops ≡ n.ops

-- Why a write is refused.
pub data Refuses (got_buffer : Bool) (st : Vfs) (offset size : ℕ) : Option ℕ → Type 0 where
  no_file : Refuses got_buffer st offset size none
  no_ops : (i : ℕ) → (st.pool i).ops ≡ none → Refuses got_buffer st offset size (some i)
  directory : (i : ℕ) → (st.pool i).type ≡ vfs_dir → Refuses got_buffer st offset size (some i)
  past_end :
      (i : ℕ)
      → vfs_max_file_data < offset + size
      → vfs_max_file_data ≤ offset
      → Refuses got_buffer st offset size (some i)
  no_buffer :
      (i : ℕ)
      → (st.pool i).bytes ≡ none
      → got_buffer ≡ false
      → Refuses got_buffer st offset size (some i)

-- What a write may leave of a file system that was `st`, and report.
pub data Outcome (got_buffer : Bool) (st : Vfs) (node : Option ℕ) (bytes : ℕ → ℕ) (offset size : ℕ)
    : Vfs × ℤ → Type 0 where
  refused :
      Refuses got_buffer st offset size node
      → Outcome got_buffer st node bytes offset size (st, minus_one)
  stored :
      (i : ℕ) (n : VfsNode)
      → node ≡ some i
      → (st.pool i).type ≡ vfs_file
      → offset + taken offset size ≤ vfs_max_file_data
      → Alike (st.pool i) n
      → Wrote (st.pool i) n bytes offset (taken offset size)
      → n.size ≤ vfs_max_file_data
      → n.type ≡ (st.pool i).type
      → ¬ Refuses got_buffer st offset size node
      → Outcome got_buffer st node bytes offset size (put_node st i n, pos (taken offset size))

is_file : (t : VfsNodeType) → is_dir t ≡ false → t ≡ vfs_file
is_file vfs_file e = refl
is_file vfs_dir e = absurd (cc)

module _ (got : Bool) (st : Vfs) (i : ℕ) (bytes : ℕ → ℕ) (offset size : ℕ) where
  -- Nothing refuses the write.
  abbrev Accepted : Type 0
  Accepted =
      (st.pool i).ops ≢ none
      × ((st.pool i).type ≡ vfs_file)
      × ((offset + size ≤ vfs_max_file_data) ⊎ (offset < vfs_max_file_data))

  taken_fits :
      (offset + size ≤ vfs_max_file_data) ⊎ (offset < vfs_max_file_data)
      → offset + taken offset size ≤ vfs_max_file_data
  taken_fits (inl l) = ground arith
  taken_fits (inr l) = ground arith

  not_refused :
      Accepted → ((st.pool i).bytes ≡ none → got ≡ true) → ¬ Refuses got st offset size (some i)
  not_refused (o, t, l) b (no_ops _ e) = o e
  not_refused (o, t, l) b (directory _ e) = absurd (cc)
  not_refused (o, t, inl l) b (past_end _ e h) = absurd (omega (arith, l))
  not_refused (o, t, inr l) b (past_end _ e h) = absurd (omega (arith, l))
  not_refused (o, t, l) b (no_buffer _ e g) = let g' = b e in absurd (cc)

  took :
      (d : ℕ → ℕ) (end : ℕ)
      → Accepted
      → ((st.pool i).bytes ≡ none → got ≡ true)
      → ((k : ℕ) → d k ≡ buffer_or_new (st.pool i).bytes k)
      → end ≡ offset + taken offset size
      → (st.pool i).size ≤ vfs_max_file_data
      → Outcome got st (some i) bytes offset size (
        put_node st i (record (st.pool i) {
          bytes = some (copy_into d offset bytes 0 (taken offset size));
          size = if ltb (st.pool i).size end then end else (st.pool i).size;
        }),
        pos (taken offset size),
      )
  took d end (o, t, l) b same e h =
      stored i _ refl t (taken_fits l)
        (record { count_eq = refl; children_eq = refl; parent_eq = refl })
        (record {
          buf = copy_into d offset bytes 0 (taken offset size);
          bytes_eq = refl;
          new_bytes = λ k b'.
              copy_into_in d offset bytes 0 (taken offset size) k b'
              ∙ ap bytes (let z : 0 + k ≡ k = omega arith in z);
          old_bytes = λ k b'. copy_into_out d offset bytes 0 (taken offset size) k b' ∙ same k;
          size_eq = rw e refl;
          name_eq = refl;
          ops_eq = refl;
        })
        (grows h) refl (not_refused (o, t, l) b)
    where
      grows :
          (st.pool i).size ≤ vfs_max_file_data
          → (if ltb (st.pool i).size end then end else (st.pool i).size) ≤ vfs_max_file_data
      grows h' = let e' = e in let f' = taken_fits l in ground arith

  -- The file with the bytes in buffer `d`.
  abbrev filled : (ℕ → ℕ) → ℕ → Vfs × ℤ
  filled d end = (
    put_node st i (record (st.pool i) {
      bytes = some (copy_into d offset bytes 0 (taken offset size));
      size = if ltb (st.pool i).size end then end else (st.pool i).size;
    }),
    pos (taken offset size),
  )

  -- What write_bytes comes to in an old buffer, a new one and none.
  fills_old :
      (end : ℕ) (d : ℕ → ℕ)
      → (st.pool i).bytes ≡ some d
      → write_bytes got st i bytes offset (taken offset size) end ≡ filled d end
  unfolding write_bytes
  fills_old end d s = rw (write_bytes, s) refl

  fills_new :
      (end : ℕ)
      → (st.pool i).bytes ≡ none
      → got ≡ true
      → write_bytes got st i bytes offset (taken offset size) end ≡ filled (λ k. 0) end
  unfolding write_bytes
  fills_new end s g = rw (write_bytes, s, g) refl

  fills_none :
      (end : ℕ)
      → (st.pool i).bytes ≡ none
      → got ≡ false
      → write_bytes got st i bytes offset (taken offset size) end ≡ (st, minus_one)
  unfolding write_bytes
  fills_none end s g = rw (write_bytes, s, g) refl

  write_bytes-Outcome :
      (end : ℕ)
      → Accepted
      → end ≡ offset + taken offset size
      → (st.pool i).size ≤ vfs_max_file_data
      → Outcome got st
          (some i)
          bytes
          offset
          size
          (write_bytes got st i bytes offset (taken offset size) end)
  write_bytes-Outcome end a e h = elim (Option-cases (st.pool i).bytes) [
    | inr (d, s) ↦
        subst result (sym (fills_old end d s))
          (took d end a (λ n. absurd (cc)) (λ k. rw s refl) e h)
    | inl s ↦ elim (Bool-cases got) [
      | inl g ↦
          subst result (sym (fills_new end s g)) (took (λ k. 0) end a (λ n. g) (λ k. rw s refl) e h)
      | inr g ↦ subst result (sym (fills_none end s g)) (refused (no_buffer i s g))
    ]
  ]
    where
      result : Vfs × ℤ → Type 0
      result = Outcome got st (some i) bytes offset size

if-Outcome :
    {got : Bool} {st : Vfs} {node : Option ℕ} {bytes : ℕ → ℕ} {offset size : ℕ} (b : Bool)
    (x y : Vfs × ℤ)
    → (b ≡ true → Outcome got st node bytes offset size x)
    → (b ≡ false → Outcome got st node bytes offset size y)
    → Outcome got st node bytes offset size (if b then x else y)
if-Outcome true x y f g = f refl
if-Outcome false x y f g = g refl

taken_all : (offset size : ℕ) → offset + size ≤ vfs_max_file_data → taken offset size ≡ size
taken_all offset size l = ground arith

taken_cut :
    (offset size : ℕ)
    → vfs_max_file_data < offset + size
    → taken offset size ≡ vfs_max_file_data - offset
taken_cut offset size l = ground arith

ramfs_write-Outcome :
    (got : Bool) (st : Vfs) (i : ℕ) (bytes : ℕ → ℕ) (offset size : ℕ)
    → offset + size < 4294967296
    → (st.pool i).ops ≢ none
    → (st.pool i).size ≤ vfs_max_file_data
    → Outcome got st (some i) bytes offset size (ramfs_write got st (some i) bytes offset size)
unfolding ramfs_write
ramfs_write-Outcome got st i bytes offset size w o h =
    if-Outcome (is_dir (st.pool i).type) _ _ (λ d. refused (directory i (is_directory _ d)))
      (λ f.
        let t = is_file (st.pool i).type f in
        if-Outcome (not (ltb vfs_max_file_data (add32 offset size))) _ _
          (λ fits.
            let l : offset + size ≤ 4096 = ground arith in
            let n = taken_all offset size l in
            subst
              (λ k.
                Outcome got st (some i) bytes offset size
                  (write_bytes got st i bytes offset k (add32 offset size)))
              n
              (write_bytes-Outcome got st i bytes offset size (add32 offset size) (o, t, inl l)
                (omega (arith, n)) h))
          (λ over.
            let l : 4096 < offset + size = ground arith in
            let n = taken_cut offset size l in
            if-Outcome (leb vfs_max_file_data offset) _ _
              (λ past. refused (past_end i l (ground arith)))
              (λ before.
                let b : offset < 4096 = ground arith in
                subst
                  (λ k.
                    Outcome got st (some i) bytes offset size
                      (write_bytes got st i bytes offset k 4096))
                  n
                  (write_bytes-Outcome got st i bytes offset size 4096 (o, t, inr b)
                    (omega (arith, n)) h))))
  where
    is_directory : (t : VfsNodeType) → is_dir t ≡ true → t ≡ vfs_dir
    is_directory vfs_dir e = refl
    is_directory vfs_file e = absurd (cc)

-- A write whose end does not wrap, to the file system in memory, where files are of 4096 bytes at
-- most, reports -1 and changes nothing exactly where the node is null, a directory or without
-- operations, the write would end past place 4096 and starts there or later, or the file has no
-- buffer and none can be had. Else it takes `size` bytes, or those up to place 4096, and reports how
-- many: the file holds them at `offset`, with its other bytes, its name and operations as before and
-- its size grown to the end of the write, and no other node changes.
pub vfs_write-Outcome :
    (got_buffer : Bool) (st : Vfs) (node : Option ℕ) (bytes : ℕ → ℕ) (offset size : ℕ)
    → offset + size < 4294967296
    → ((i : ℕ) → node ≡ some i → (st.pool i).size ≤ vfs_max_file_data)
    → Outcome got_buffer st node bytes offset size (vfs_write got_buffer st node bytes offset size)
unfolding vfs_write
vfs_write-Outcome got st none bytes offset size w h = refused no_file
vfs_write-Outcome got st (some i) bytes offset size w h = elim (Option-cases (st.pool i).ops) [
  | inl e ↦ rw (vfs_write, e) (refused (no_ops i e))
  | inr (ramfs_ops, e) ↦
      rw (vfs_write, e)
        (ramfs_write-Outcome got st i bytes offset size w (λ n. absurd (cc)) (h i refl))
]
