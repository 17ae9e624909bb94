-- ===== src/Vfs/Path.antt =====
-- kernel/vfs.cpp, vfs_init to vfs_chdir.
use sabaka_os.Common.{
  ℕ, zero, suc, ◌+◌, List, [], ◌∷◌, ◌++◌, Option, none, some, Bool, false, ltb, ◌==◌, if◌then◌else◌,
  update, length,
}
use sabaka_os.Common.Int.{ℤ, pos, minus_one}
use sabaka_os.KString.Text.{CString, kstrcmp}
use sabaka_os.EnvVars.{is_zero}
use sabaka_os.Vfs.Nodes.{
  VfsOps, ramfs_ops, Vfs, vfs_dir, is_dir, fresh_node, ramfs_read, ramfs_write, ramfs_finddir,
  ramfs_mkdir, ramfs_create, ramfs_readdir,
}

unfoldable pub vfs_init : Vfs → Vfs
vfs_init st = record {
  pool = update st.pool 0 (record fresh_node {
    name = b'/' ∷ [];
    type = vfs_dir;
    ops = some ramfs_ops;
    parent = some 0;
  });
  used = 1;
  root = 0;
  cwd = 0;
}

-- `!node || !node->ops`: the node and its operations, where it has some.
abbrev pub node_ops : Vfs → Option ℕ → Option VfsOps
node_ops st none = none
node_ops st (some i) = (st.pool i).ops

unfoldable pub vfs_finddir : Vfs → Option ℕ → CString → Option ℕ
vfs_finddir st node name = elim (node_ops st node) [
  | none ↦ none
  | some ramfs_ops ↦ ramfs_finddir st node name
]

unfoldable pub vfs_mkdir : Vfs → Option ℕ → CString → Vfs × Option ℕ
vfs_mkdir st node name = elim (node_ops st node) [
  | none ↦ (st, none)
  | some ramfs_ops ↦ ramfs_mkdir st node name
]

unfoldable pub vfs_create : Vfs → Option ℕ → CString → Vfs × Option ℕ
vfs_create st node name = elim (node_ops st node) [
  | none ↦ (st, none)
  | some ramfs_ops ↦ ramfs_create st node name
]

unfoldable pub vfs_read : Vfs → Option ℕ → ℕ → ℕ → List ℕ × ℤ
vfs_read st node offset size = elim (node_ops st node) [
  | none ↦ ([], minus_one)
  | some ramfs_ops ↦ ramfs_read st node offset size
]

unfoldable pub vfs_write : Bool → Vfs → Option ℕ → (ℕ → ℕ) → ℕ → ℕ → Vfs × ℤ
vfs_write got_buffer st node bytes offset size = elim (node_ops st node) [
  | none ↦ (st, minus_one)
  | some ramfs_ops ↦ ramfs_write got_buffer st node bytes offset size
]

unfoldable pub vfs_readdir : Vfs → Option ℕ → ℕ → Option CString
vfs_readdir st node index = elim (node_ops st node) [
  | none ↦ none
  | some ramfs_ops ↦ ramfs_readdir st node index
]

-- `while (path[i] == '/') i++;`
unfoldable pub skip_slashes : CString → CString
skip_slashes [] = []
skip_slashes (c ∷ s) = let rest = skip_slashes s in if c == b'/' then rest else c ∷ s

-- The next component, of at most `max` bytes, and what follows it.
unfoldable pub take_component : ℕ → CString → CString × CString
take_component zero s = ([], s)
take_component (suc max) [] = ([], [])
take_component (suc max) (c ∷ s) =
    let (component, rest) = take_component max s in
    if c == b'/' then ([], c ∷ s) else (c ∷ component, rest)

abbrev pub dot : CString
dot = b'.' ∷ []

abbrev pub dot_dot : CString
dot_dot = b'.' ∷ b'.' ∷ []

-- Up from a node: `if (cur->parent && cur->parent != cur) cur = cur->parent;`
abbrev pub go_up : Vfs → ℕ → ℕ
go_up st cur = elim (st.pool cur).parent [ none ↦ cur | some p ↦ p ]

-- Where a component leads, `none` if there is no such child.
unfoldable pub enter : Vfs → ℕ → CString → Option ℕ
enter st cur component =
    if is_zero (kstrcmp component dot)
    then some cur
    else if is_zero (kstrcmp component dot_dot)
    then some (go_up st cur)
    else vfs_finddir st (some cur) component

-- The outcome of the loop of vfs_resolve_path: a node, a null pointer, or no more fuel.
pub data Resolved : Type 0 where
  at_node : ℕ → Resolved
  no_node out_of_fuel : Resolved

unfoldable pub resolve_loop : Vfs → ℕ → ℕ → CString → Resolved
resolve_loop st zero cur path = out_of_fuel
resolve_loop st (suc fuel) cur path = elim (skip_slashes path) [
  | [] ↦ at_node cur
  | c ∷ s ↦
      let (component, rest) = take_component 63 (c ∷ s) in
      elim (enter st cur component) [ none ↦ no_node | some next ↦ resolve_loop st fuel next rest ]
]

-- `path[0] == '/'`
abbrev pub is_absolute : CString → Bool
is_absolute [] = false
is_absolute (c ∷ s) = c == b'/'

-- A round takes one byte of the path at least.
unfoldable pub vfs_resolve_path : Vfs → CString → Resolved
vfs_resolve_path st path =
    resolve_loop st (length path + 1) (if is_absolute path then st.root else st.cwd) path

unfoldable pub vfs_chdir : Vfs → CString → Vfs × ℤ
vfs_chdir st path = elim (vfs_resolve_path st path) [
  | at_node i ↦ if is_dir (st.pool i).type then (record st { cwd = i }, pos 0) else (st, minus_one)
  | no_node ↦ (st, minus_one)
  | out_of_fuel ↦ (st, minus_one)
]

-- The stack of vfs_get_cwd_path, the node nearest to the root first, with `depth` places left.
unfoldable pub climb : Vfs → ℕ → Option ℕ → List ℕ → List ℕ
climb st zero n stack = stack
climb st (suc depth) none stack = stack
climb st (suc depth) (some i) stack =
    let rest = climb st depth (st.pool i).parent (i ∷ stack) in if i == st.root then stack else rest

-- `if (pos + 1 < bufsize) buf[pos++] = c;`
abbrev pub put_char : ℕ → CString → ℕ → CString
put_char bufsize out c = if ltb (length out + 1) bufsize then out ++ (c ∷ []) else out

unfoldable pub put_text : ℕ → CString → CString → CString
put_text bufsize out [] = out
put_text bufsize out (c ∷ s) = put_text bufsize (put_char bufsize out c) s

unfoldable pub put_names : Vfs → ℕ → CString → List ℕ → CString
put_names st bufsize out [] = out
put_names st bufsize out (i ∷ stack) =
    put_names st bufsize (put_text bufsize (put_char bufsize out b'/') (st.pool i).name) stack

-- The string in the buffer, `none` where nothing is written. The text of the root is written
-- whatever the size.
unfoldable pub vfs_get_cwd_path : Vfs → ℕ → Option CString
vfs_get_cwd_path st bufsize =
    let path : CString = elim (climb st 63 (some st.cwd) []) [
      | [] ↦ b'/' ∷ []
      | i ∷ stack ↦ put_names st bufsize [] (i ∷ stack)
    ] in
    if bufsize == 0 then none else some path
