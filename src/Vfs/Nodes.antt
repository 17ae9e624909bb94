-- ===== src/Vfs/Nodes.antt =====
-- kernel/vfs.cpp, alloc_node to ramfs_readdir. A pointer to a node is its index in `node_pool`,
-- `none` if it is null. The model is of the file system in memory: the nodes that vfs_mount_fat32
-- hangs into the tree are outside the pool and have another table of operations.
use sabaka_os.Common.{
  ℕ, ◌+◌, ◌-◌, List, [], Option, none, some, Bool, true, false, not, ltb, leb, if◌then◌else◌,
  update, find_index, slice,
}
use sabaka_os.Common.Int.{ℤ, pos, minus_one}
use sabaka_os.Common.Words.{add32}
use sabaka_os.KString.Memory.{copy_into}
use sabaka_os.KString.Text.{CString, kstrcmp}
use sabaka_os.EnvVars.{is_zero}

abbrev pub vfs_max_name : ℕ
vfs_max_name = 64

abbrev pub vfs_max_children : ℕ
vfs_max_children = 16

abbrev pub vfs_max_nodes : ℕ
vfs_max_nodes = 128

abbrev pub vfs_max_file_data : ℕ
vfs_max_file_data = 4096

pub data VfsNodeType : Type 0 where
  vfs_file vfs_dir : VfsNodeType

abbrev pub is_dir : VfsNodeType → Bool
is_dir vfs_dir = true
is_dir vfs_file = false

-- The table of operations of the file system in memory. That of the files on disk, `disk_ops`, is
-- not modelled.
pub data VfsOps : Type 0 where
  ramfs_ops : VfsOps

pub record VfsNode : Type 0 where
  pub name : CString
  pub type : VfsNodeType
  pub size : ℕ
  pub bytes : Option (ℕ → ℕ)  -- data
  pub ops : Option VfsOps
  pub children : ℕ → ℕ
  pub child_count : ℕ
  pub parent : Option ℕ

-- `node_pool`, `node_pool_used`, `root_node` and `cwd_node`.
pub record Vfs : Type 0 where
  pub pool : ℕ → VfsNode
  pub used : ℕ
  pub root : ℕ
  pub cwd : ℕ

abbrev pub fresh_node : VfsNode
fresh_node = record {
  name = [];
  type = vfs_file;
  size = 0;
  bytes = none;
  ops = none;
  children = λ i. 0;
  child_count = 0;
  parent = none;
}

-- The slot of the next node, `none` where all are in use.
unfoldable pub alloc_node : Vfs → Option ℕ
alloc_node st = if leb vfs_max_nodes st.used then none else some st.used

abbrev pub put_node : Vfs → ℕ → VfsNode → Vfs
put_node st i n = record st { pool = update st.pool i n }

-- The bytes that go to the caller's buffer, and the result.
unfoldable pub ramfs_read : Vfs → Option ℕ → (offset size : ℕ) → List ℕ × ℤ
ramfs_read st none offset size = ([], minus_one)
ramfs_read st (some i) offset size =
    let n = st.pool i in
    let avail = n.size - offset in
    let size' = if ltb avail size then avail else size in
    let read : List ℕ × ℤ = elim n.bytes [
      | none ↦ ([], pos 0)
      | some d ↦ (slice d offset size', pos size')
    ] in
    if is_dir n.type then ([], minus_one) else if leb n.size offset then ([], pos 0) else read

-- ramfs_write once `size` is cut off; `got_buffer` is whether `kmalloc` gives a buffer.
-- The buffer is a function of the place, so the model does not say what a copy past its 4096 bytes
-- overwrites, as the source makes one where `offset + size` wraps: the theorems keep to writes where
-- it does not.
unfoldable pub write_bytes : Bool → Vfs → ℕ → (ℕ → ℕ) → (offset size end : ℕ) → Vfs × ℤ
write_bytes got_buffer st i bytes offset size end =
    let n = st.pool i in
    let buffer : Option (ℕ → ℕ) = elim n.bytes [
      | some d ↦ some d
      | none ↦ if got_buffer then some (λ k. 0) else none
    ] in
    elim buffer [
      | none ↦ (st, minus_one)
      | some d ↦ (
        put_node st i (record n {
          bytes = some (copy_into d offset bytes 0 size);
          size = if ltb n.size end then end else n.size;
        }),
        pos size,
      )
    ]

unfoldable pub ramfs_write : Bool → Vfs → Option ℕ → (ℕ → ℕ) → (offset size : ℕ) → Vfs × ℤ
ramfs_write got_buffer st none bytes offset size = (st, minus_one)
ramfs_write got_buffer st (some i) bytes offset size =
    let end = add32 offset size in
    if is_dir (st.pool i).type
    then (st, minus_one)
    else if not (ltb vfs_max_file_data end)
    then write_bytes got_buffer st i bytes offset size end
    else if leb vfs_max_file_data offset
    then (st, minus_one)
    else write_bytes got_buffer st i bytes offset (vfs_max_file_data - offset) vfs_max_file_data

-- `kstrcmp(node->children[k]->name, name) == 0`
abbrev pub child_named : Vfs → ℕ → CString → ℕ → Bool
child_named st i name k = is_zero (kstrcmp (st.pool ((st.pool i).children k)).name name)

unfoldable pub ramfs_finddir : Vfs → Option ℕ → CString → Option ℕ
ramfs_finddir st none name = none
ramfs_finddir st (some i) name =
    let found : Option ℕ = elim (find_index (child_named st i name) 0 (st.pool i).child_count) [
      | none ↦ none
      | some k ↦ some ((st.pool i).children k)
    ] in
    if is_dir (st.pool i).type then found else none

-- The new node `c`, and its place in the directory `i`. The model does not say what the copy of a
-- name of 64 bytes or more overwrites past the field: the theorems keep to names that fit.
abbrev pub add_child : Vfs → ℕ → ℕ → CString → VfsNodeType → Vfs
add_child st i c name type =
    let n = st.pool i in
    let child = record fresh_node { name = name; type = type; ops = n.ops; parent = some i } in
    let parent = record n {
      children = update n.children n.child_count c;
      child_count = n.child_count + 1;
    } in
    record st { pool = update (update st.pool c child) i parent; used = st.used + 1 }

-- ramfs_mkdir and ramfs_create, which differ in the type of the node that they make.
unfoldable pub ramfs_add : VfsNodeType → Vfs → Option ℕ → CString → Vfs × Option ℕ
ramfs_add type st none name = (st, none)
ramfs_add type st (some i) name =
    let n = st.pool i in
    let added : Vfs × Option ℕ = elim (alloc_node st) [
      | none ↦ (st, none)
      | some c ↦ (add_child st i c name type, some c)
    ] in
    if not (is_dir n.type)
    then (st, none)
    else if leb vfs_max_children n.child_count
    then (st, none)
    else elim (ramfs_finddir st (some i) name) [ some c ↦ (st, none) | none ↦ added ]

unfoldable pub ramfs_mkdir : Vfs → Option ℕ → CString → Vfs × Option ℕ
ramfs_mkdir st node name = ramfs_add vfs_dir st node name

unfoldable pub ramfs_create : Vfs → Option ℕ → CString → Vfs × Option ℕ
ramfs_create st node name = ramfs_add vfs_file st node name

-- The name, `none` for -1.
unfoldable pub ramfs_readdir : Vfs → Option ℕ → ℕ → Option CString
ramfs_readdir st none index = none
ramfs_readdir st (some i) index =
    let n = st.pool i in
    if not (is_dir n.type)
    then none
    else if leb n.child_count index
    then none
    else some (st.pool (n.children index)).name
