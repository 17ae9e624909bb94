-- ===== src/Vfs/Add.antt =====
-- kernel/vfs.cpp: what ramfs_mkdir and ramfs_create do, and what ramfs_finddir finds then.
use sabaka_os.Common.{
  length, ℕ, ◌+◌, ◌<◌, ◌≡◌, inl, inr, refl, ◌∙◌, ap, Option, none, some, Bool, true, false, arith,
  update, not, update_self, update_ne, sym, leb, Bool-cases, Option-cases, if◌then◌else◌,
  find_index, find_index-none, find_index_of,
}
use sabaka_os.KString.Text.{CString}
use sabaka_os.KString.Compare.{kstrcmp_self}
use sabaka_os.KString.Text.{kstrcmp}
use sabaka_os.EnvVars.{is_zero}
use sabaka_os.Vfs.Nodes.{
  vfs_max_name, VfsNode, Vfs, VfsNodeType, vfs_file, vfs_dir, is_dir, ramfs_ops, fresh_node,
  alloc_node, add_child, ramfs_add, ramfs_mkdir, ramfs_create, ramfs_finddir, child_named,
  vfs_max_nodes, vfs_max_children,
}
use sabaka_os.Vfs.Path.{vfs_finddir, vfs_mkdir, vfs_create, node_ops}
use sabaka_os.Vfs.Tree.{IsValid, add_child-IsValid, field-update}

-- What may come of adding a node.
pub data Outcome (type : VfsNodeType) (st : Vfs) (node : Option ℕ) (name : CString)
    : Vfs × Option ℕ → Type 0 where
  refused : Outcome type st node name (st, none)
  added :
      (i : ℕ)
      → node ≡ some i
      → is_dir (st.pool i).type ≡ true
      → (st.pool i).child_count < vfs_max_children
      → ramfs_finddir st (some i) name ≡ none
      → st.used < vfs_max_nodes
      → Outcome type st node name (add_child st i st.used name type, some st.used)

if-Outcome :
    {type : VfsNodeType} {st : Vfs} {node : Option ℕ} {name : CString} (b : Bool)
    (x y : Vfs × Option ℕ)
    → (b ≡ true → Outcome type st node name x)
    → (b ≡ false → Outcome type st node name y)
    → Outcome type st node name (if b then x else y)
if-Outcome true x y f g = f refl
if-Outcome false x y f g = g refl

ramfs_add-Outcome :
    (type : VfsNodeType) (st : Vfs) (node : Option ℕ) (name : CString)
    → Outcome type st node name (ramfs_add type st node name)
unfolding ramfs_add alloc_node
ramfs_add-Outcome type st none name = refused
ramfs_add-Outcome type st (some i) name =
    if-Outcome (not (is_dir (st.pool i).type)) _ _ (λ d. refused)
      (λ d.
        if-Outcome (leb vfs_max_children (st.pool i).child_count) _ _ (λ f. refused)
          (λ f. elim (Option-cases (ramfs_finddir st (some i) name)) [
            | inr (c, e) ↦ rw e refused
            | inl e ↦ elim (Bool-cases (leb vfs_max_nodes st.used)) [
              | inl full ↦ rw (e, full) refused
              | inr free ↦
                  rw (e, free) (added i refl (ground arith) (ground arith) e (ground arith))
            ]
          ]))

pub vfs_mkdir-Outcome :
    (st : Vfs) (node : Option ℕ) (name : CString)
    → Outcome vfs_dir st node name (vfs_mkdir st node name)
unfolding vfs_mkdir ramfs_mkdir
vfs_mkdir-Outcome st node name = elim (Option-cases (node_ops st node)) [
  | inl e ↦ rw (vfs_mkdir, e) refused
  | inr (ramfs_ops, e) ↦ rw (vfs_mkdir, e) (ramfs_add-Outcome vfs_dir st node name)
]

pub vfs_create-Outcome :
    (st : Vfs) (node : Option ℕ) (name : CString)
    → Outcome vfs_file st node name (vfs_create st node name)
unfolding vfs_create ramfs_create
vfs_create-Outcome st node name = elim (Option-cases (node_ops st node)) [
  | inl e ↦ rw (vfs_create, e) refused
  | inr (ramfs_ops, e) ↦ rw (vfs_create, e) (ramfs_add-Outcome vfs_file st node name)
]

pub Outcome-IsValid :
    {type : VfsNodeType} {st : Vfs} {node : Option ℕ} {name : CString} {y : Vfs × Option ℕ}
    → Outcome type st node name y
    → IsValid st
    → ((i : ℕ) → node ≡ some i → i < st.used)
    → IsValid y.0
Outcome-IsValid refused v h = v
Outcome-IsValid {st = st} (added i e d f n u) v h = add_child-IsValid st i _ _ v (h i e) u f

finddir_at :
    (st : Vfs) (i : ℕ) (name : CString) (k : ℕ)
    → is_dir (st.pool i).type ≡ true
    → find_index (child_named st i name) 0 (st.pool i).child_count ≡ some k
    → ramfs_finddir st (some i) name ≡ some ((st.pool i).children k)
unfolding ramfs_finddir
finddir_at st i name k d e = rw (d, e) refl

no_index :
    (st : Vfs) (i : ℕ) (name : CString)
    → is_dir (st.pool i).type ≡ true
    → ramfs_finddir st (some i) name ≡ none
    → find_index (child_named st i name) 0 (st.pool i).child_count ≡ none
no_index st i name d n =
    elim (Option-cases (find_index (child_named st i name) 0 (st.pool i).child_count)) [
      | inl e ↦ e
      | inr (k, e) ↦ let found = finddir_at st i name k d e in absurd (cc)
    ]

module _ (st : Vfs) (i : ℕ) (name : CString) (type : VfsNodeType) (l : i < st.used) where
  abbrev st' : Vfs
  st' = add_child st i st.used name type

  abbrev child : VfsNode
  child = record fresh_node { name = name; type = type; ops = (st.pool i).ops; parent = some i }

  abbrev directory : VfsNode
  directory = record (st.pool i) {
    children = update (st.pool i).children (st.pool i).child_count st.used;
    child_count = (st.pool i).child_count + 1;
  }

  abbrev pool' : ℕ → VfsNode
  pool' = update st.pool st.used child

  at_i : st'.pool i ≡ directory
  at_i = update_self pool' i directory

  at_new : st'.pool st.used ≡ child
  at_new = update_ne pool' i st.used directory (omega arith) ∙ update_self st.pool st.used child

  name_old : (j : ℕ) → j < st.used → (st'.pool j).name ≡ (st.pool j).name
  name_old j b =
      field-update (λ x. x.name) pool' i directory j
        (ap (λ (x : VfsNode). x.name) (sym (update_ne st.pool st.used i child (omega arith))))
      ∙ ap (λ (x : VfsNode). x.name) (update_ne st.pool st.used j child (omega arith))

  child_new : (st'.pool i).children (st.pool i).child_count ≡ st.used
  child_new =
      ap (λ (x : VfsNode). x.children (st.pool i).child_count) at_i
      ∙ update_self (st.pool i).children (st.pool i).child_count st.used

  child_old :
      (k : ℕ) → k < (st.pool i).child_count → (st'.pool i).children k ≡ (st.pool i).children k
  child_old k b =
      ap (λ (x : VfsNode). x.children k) at_i
      ∙ update_ne (st.pool i).children (st.pool i).child_count k st.used (omega arith)

  named_new : child_named st' i name (st.pool i).child_count ≡ true
  named_new =
      let e : (st'.pool ((st'.pool i).children (st.pool i).child_count)).name ≡ name =
        ap (λ c. (st'.pool c).name) child_new ∙ ap (λ (x : VfsNode). x.name) at_new in
      rw (e, kstrcmp_self name) refl

  named_old :
      IsValid st
      → (other : CString) (k : ℕ) → k < (st.pool i).child_count
      → child_named st' i other k ≡ child_named st i other k
  named_old v other k b =
      let e : (st'.pool ((st'.pool i).children k)).name ≡ (st.pool ((st.pool i).children k)).name =
        ap (λ c. (st'.pool c).name) (child_old k b)
        ∙ name_old ((st.pool i).children k) ((v.nodes i l).children_in k b) in
      ap (λ (s : CString). is_zero (kstrcmp s other)) e

  -- The new child is found under its name.
  pub ramfs_finddir-add_child :
      IsValid st
      → is_dir (st.pool i).type ≡ true
      → ramfs_finddir st (some i) name ≡ none
      → ramfs_finddir st' (some i) name ≡ some st.used
  ramfs_finddir-add_child v d n =
      let count : (st'.pool i).child_count ≡ (st.pool i).child_count + 1 =
        ap (λ (x : VfsNode). x.child_count) at_i in
      let none_found = no_index st i name d n in
      finddir_at st' i name (st.pool i).child_count (ap (λ (x : VfsNode). is_dir x.type) at_i ∙ d) (
        ap (find_index (child_named st' i name) 0) count
        ∙ find_index_of (child_named st' i name) 0 ((st.pool i).child_count + 1)
            (st.pool i).child_count
            (record {
              above = omega arith;
              below = omega arith;
              passes = named_new;
              earlier = λ j a b.
                  named_old v name j b
                  ∙ find_index-none (child_named st i name) 0 (st.pool i).child_count none_found j a
                      (omega arith);
            }))
      ∙ ap some child_new

through :
    (st : Vfs) (i : ℕ) (name : CString)
    → (st.pool i).ops ≡ some ramfs_ops
    → vfs_finddir st (some i) name ≡ ramfs_finddir st (some i) name
unfolding vfs_finddir
through st i name o = rw (vfs_finddir, o) refl

found :
    {type : VfsNodeType} {st : Vfs} {i : ℕ} {name : CString} {y : Vfs × Option ℕ} (c : ℕ)
    → Outcome type st (some i) name y
    → IsValid st
    → i < st.used
    → (st.pool i).ops ≡ some ramfs_ops
    → y.1 ≡ some c
    → vfs_finddir y.0 (some i) name ≡ some c
found c refused v l o e = absurd (cc)
found {type} {st} {i} {name} c (added i' e' d f n u) v l o e =
    let here : i' ≡ i = ground arith in
    let d' : is_dir (st.pool i).type ≡ true = ap (λ k. is_dir (st.pool k).type) (sym here) ∙ d in
    let n' : ramfs_finddir st (some i) name ≡ none =
      ap (λ k. ramfs_finddir st (some k) name) (sym here) ∙ n in
    let ops' : ((add_child st i st.used name type).pool i).ops ≡ some ramfs_ops =
      ap (λ (x : VfsNode). x.ops) (at_i st i name type l) ∙ o in
    ap (λ k. vfs_finddir (add_child st k st.used name type) (some i) name) here
    ∙ through (add_child st i st.used name type) i name ops'
    ∙ ramfs_finddir-add_child st i name type l v d' n'
    ∙ e

-- A directory that vfs_mkdir makes in a valid file system, under a name that fits the 64 bytes of
-- its field, is what vfs_finddir finds under that name.
pub vfs_finddir-vfs_mkdir :
    (st : Vfs) (i : ℕ) (name : CString) (c : ℕ)
    → IsValid st
    → i < st.used
    → length name < vfs_max_name
    → (vfs_mkdir st (some i) name).1 ≡ some c
    → vfs_finddir (vfs_mkdir st (some i) name).0 (some i) name ≡ some c
unfolding vfs_mkdir
vfs_finddir-vfs_mkdir st i name c v l fits e = elim (Option-cases (st.pool i).ops) [
  | inl o ↦
      let none_made : (vfs_mkdir st (some i) name).1 ≡ none = rw (vfs_mkdir, o) refl in absurd (cc)
  | inr (ramfs_ops, o) ↦ found c (vfs_mkdir-Outcome st (some i) name) v l o e
]
