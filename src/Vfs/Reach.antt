-- ===== src/Vfs/Reach.antt =====
-- kernel/vfs.cpp: every file system that the calls make, from vfs_init on, is valid.
use sabaka_os.Common.{◌+◌, ◌<◌, length, ℕ, ◌≡◌, inl, inr, refl, Option, Bool, Bool-cases}
use sabaka_os.Common.Int.{ℤ}
use sabaka_os.KString.Text.{CString}
use sabaka_os.Vfs.Nodes.{vfs_max_name, Vfs, is_dir}
use sabaka_os.Vfs.Path.{
  vfs_init, vfs_mkdir, vfs_create, vfs_write, vfs_chdir, vfs_resolve_path, Resolved, at_node,
  no_node, out_of_fuel,
}
use sabaka_os.Vfs.Tree.{IsValid, vfs_init-IsValid, put_node-IsValid}
use sabaka_os.Vfs.Add.{Outcome-IsValid, vfs_mkdir-Outcome, vfs_create-Outcome}
use sabaka_os.Vfs.Outcome
use sabaka_os.Vfs.Outcome.{vfs_write-Outcome}
use sabaka_os.Vfs.Resolve.{InPool, Lands, lands, nowhere, vfs_resolve_path-Lands}

-- The calls that change the file system, on null pointers or nodes of the pool, with names that fit
-- their field and writes whose end does not wrap.
pub data Step (st : Vfs) : Vfs → Type 0 where
  mkdir_step :
      (node : Option ℕ) (name : CString)
      → InPool st.used node
      → length name < vfs_max_name
      → Step st (vfs_mkdir st node name).0
  create_step :
      (node : Option ℕ) (name : CString)
      → InPool st.used node
      → length name < vfs_max_name
      → Step st (vfs_create st node name).0
  write_step :
      (got_buffer : Bool) (node : Option ℕ) (bytes : ℕ → ℕ) (offset size : ℕ)
      → InPool st.used node
      → offset + size < 4294967296
      → Step st (vfs_write got_buffer st node bytes offset size).0
  chdir_step : (path : CString) → Step st (vfs_chdir st path).0

pub data Reachable : Vfs → Type 0 where
  at_start : (st : Vfs) → Reachable (vfs_init st)
  after : (st st' : Vfs) → Reachable st → Step st st' → Reachable st'

write_kept :
    {got : Bool} {st : Vfs} {node : Option ℕ} {bytes : ℕ → ℕ} {offset size : ℕ} {y : Vfs × ℤ}
    → Outcome.Outcome got st node bytes offset size y
    → IsValid st
    → IsValid y.0
write_kept (Outcome.refused r) v = v
write_kept {st = st} (Outcome.stored i n e t o a w s y x) v = put_node-IsValid st i n v a y s

chdir_kept :
    (st : Vfs) (path : CString) (r : Resolved)
    → IsValid st
    → Lands st r
    → vfs_resolve_path st path ≡ r
    → IsValid (vfs_chdir st path).0
unfolding vfs_chdir
chdir_kept st path (at_node i) v (lands j l) e = elim (Bool-cases (is_dir (st.pool i).type)) [
  | inl d ↦
      rw (vfs_chdir, e, d)
        (record { fits = v.fits; root_in = v.root_in; cwd_in = l; cwd_dir = d; nodes = v.nodes })
  | inr f ↦ rw (vfs_chdir, e, f) v
]
chdir_kept st path no_node v nowhere e = rw (vfs_chdir, e) v
chdir_kept st path out_of_fuel v x e = elim x [ ]

Step-IsValid : (st st' : Vfs) → Step st st' → IsValid st → IsValid st'
Step-IsValid st st' (mkdir_step node name h fits) v =
    Outcome-IsValid (vfs_mkdir-Outcome st node name) v h
Step-IsValid st st' (create_step node name h fits) v =
    Outcome-IsValid (vfs_create-Outcome st node name) v h
Step-IsValid st st' (write_step got node bytes offset size h fits) v =
    write_kept
      (vfs_write-Outcome got st node bytes offset size fits (λ i e. (v.nodes i (h i e)).size_le)) v
Step-IsValid st st' (chdir_step path) v =
    chdir_kept st path (vfs_resolve_path st path) v (vfs_resolve_path-Lands st path v) refl

-- Whatever calls of vfs_mkdir, vfs_create, vfs_write and vfs_chdir follow vfs_init, in a file system
-- of nodes in memory only, with names shorter than 64 bytes and writes whose offset and size add up
-- to less than 2 ^ 32: at most 128 nodes are in use, the root and the current directory
-- are among them and the latter is a directory, each directory has at most 16 children, which are
-- nodes in use with that directory as their parent, and no file is longer than 4096 bytes.
pub Reachable-IsValid : (st : Vfs) → Reachable st → IsValid st
Reachable-IsValid _ (at_start s) = vfs_init-IsValid s
Reachable-IsValid _ (after s s' r step) = Step-IsValid s s' step (Reachable-IsValid s r)
