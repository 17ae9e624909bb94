-- ===== src/Vfs/Tests.antt =====
-- kernel/vfs.cpp on a small tree.
use sabaka_os.Common.{ℕ, ◌+◌, ◌≡◌, find_index, refl, [], ◌∷◌, some, true, arith}
use sabaka_os.Common.Int.{pos}
use sabaka_os.KString.Text.{CString, kstrcmp}
use sabaka_os.Vfs.Nodes.{
  Vfs, fresh_node, ramfs_add, ramfs_mkdir, ramfs_create, ramfs_finddir, alloc_node,
}
use sabaka_os.Vfs.Path.{
  vfs_init, vfs_finddir, vfs_mkdir, vfs_create, vfs_write, vfs_read, vfs_chdir, vfs_resolve_path,
  vfs_get_cwd_path, resolve_loop, skip_slashes, take_component, enter, climb, put_text, put_names,
}
use sabaka_os.Vfs.Tree.{IsValid}
use sabaka_os.Vfs.Reach.{Reachable, at_start, after, mkdir_step, create_step, Reachable-IsValid}
use sabaka_os.Vfs.Outcome
use sabaka_os.Vfs.Content.{vfs_read-vfs_write}
use sabaka_os.Vfs.Outcome.{vfs_write-Outcome}
use sabaka_os.Vfs.Add.{vfs_finddir-vfs_mkdir}
use sabaka_os.Vfs.Resolve.{Lands, vfs_resolve_path-Lands}

abbrev home : CString
home = b'h' ∷ b'o' ∷ b'm' ∷ b'e' ∷ []

abbrev note : CString
note = b'n' ∷ []

abbrev before : Vfs
before = record { pool = λ i. fresh_node; used = 0; root = 0; cwd = 0 }

abbrev empty : Vfs
empty = vfs_init before

abbrev with_home : Vfs
with_home = (vfs_mkdir empty (some 0) home).0

abbrev with_note : Vfs
with_note = (vfs_create with_home (some 1) note).0

abbrev text : ℕ → ℕ
text k = 100 + k

with_note-Reachable : Reachable with_note
unfolding vfs_init vfs_mkdir ramfs_mkdir ramfs_add ramfs_finddir find_index alloc_node kstrcmp
with_note-Reachable =
    after with_home with_note
      (after empty with_home (at_start before)
        (mkdir_step (some 0) home (λ i e. ground arith) (omega arith)))
      (create_step (some 1) note (λ i e. ground arith) (omega arith))

with_note-IsValid : IsValid with_note
with_note-IsValid = Reachable-IsValid with_note with_note-Reachable

Reachable-IsValid_example : IsValid with_note
Reachable-IsValid_example = Reachable-IsValid with_note with_note-Reachable

vfs_resolve_path-Lands_example : Lands with_note (vfs_resolve_path with_note (b'/' ∷ home))
vfs_resolve_path-Lands_example = vfs_resolve_path-Lands with_note (b'/' ∷ home) with_note-IsValid

vfs_finddir-vfs_mkdir_example : vfs_finddir with_home (some 0) home ≡ some 1
unfolding vfs_init vfs_mkdir ramfs_mkdir ramfs_add ramfs_finddir find_index alloc_node kstrcmp
vfs_finddir-vfs_mkdir_example =
    vfs_finddir-vfs_mkdir empty 0 home 1 (Reachable-IsValid empty (at_start before)) (omega arith)
      (omega arith) refl

vfs_read-vfs_write_example :
    ((vfs_write true with_note (some 2) text 3 2).1 ≡ pos 2)
    × (vfs_read (vfs_write true with_note (some 2) text 3 2).0 (some 2) 3 2
        ≡ (100 ∷ 101 ∷ [], pos 2))
unfolding vfs_init vfs_mkdir ramfs_mkdir vfs_create ramfs_create ramfs_add ramfs_finddir find_index
    alloc_node kstrcmp
vfs_read-vfs_write_example = vfs_read-vfs_write with_note 2 text 3 2 refl refl (omega arith)

vfs_write-Outcome_example :
    Outcome.Outcome true with_note
      (some 2)
      text
      4090
      9
      (vfs_write true with_note (some 2) text 4090 9)
unfolding vfs_init vfs_mkdir ramfs_mkdir vfs_create ramfs_create ramfs_add ramfs_finddir find_index
    alloc_node kstrcmp
vfs_write-Outcome_example =
    vfs_write-Outcome true with_note (some 2) text 4090 9 (omega arith)
      (λ i e. (with_note-IsValid.nodes i (ground arith)).size_le)

changes_directory : (vfs_chdir with_note home).1 ≡ pos 0
unfolding vfs_init vfs_mkdir ramfs_mkdir vfs_create ramfs_create ramfs_add ramfs_finddir find_index
    alloc_node kstrcmp vfs_chdir vfs_resolve_path resolve_loop skip_slashes take_component enter
    vfs_finddir climb put_text put_names vfs_get_cwd_path
changes_directory = refl

writes_path : vfs_get_cwd_path (vfs_chdir with_note home).0 64 ≡ some (b'/' ∷ home)
unfolding vfs_init vfs_mkdir ramfs_mkdir vfs_create ramfs_create ramfs_add ramfs_finddir find_index
    alloc_node kstrcmp vfs_chdir vfs_resolve_path resolve_loop skip_slashes take_component enter
    vfs_finddir climb put_text put_names vfs_get_cwd_path
writes_path = refl
