-- ===== src/Vfs/Resolve.antt =====
-- kernel/vfs.cpp, vfs_resolve_path: the walk ends, and ends at a node of the tree.
use sabaka_os.Common.{
  ◌⊎◌, ℕ, zero, suc, ◌+◌, ◌≤◌, ◌<◌, ◌≡◌, inl, inr, refl, ap, Option, none, some, Bool, true, false,
  arith, [], ◌∷◌, ◌==◌, Bool-cases, Option-cases, if◌then◌else◌, find_index, find_index-some,
  length,
}
use sabaka_os.KString.Text.{CString, kstrcmp}
use sabaka_os.EnvVars.{is_zero}
use sabaka_os.Vfs.Nodes.{Vfs, is_dir, ramfs_ops, ramfs_finddir, child_named}
use sabaka_os.Vfs.Path.{
  vfs_finddir, Resolved, at_node, no_node, skip_slashes, take_component, go_up, enter, dot, dot_dot,
  resolve_loop, is_absolute, vfs_resolve_path,
}
use sabaka_os.Vfs.Tree.{IsValid}

-- A node of the tree, or no node.
pub data Lands (st : Vfs) : Resolved → Type 0 where
  lands : (i : ℕ) → i < st.used → Lands st (at_node i)
  nowhere : Lands st no_node

-- A node, if there is one, is one of the pool.
abbrev pub InPool : ℕ → Option ℕ → Type 0
InPool used o = (i : ℕ) → o ≡ some i → i < used

if-InPool :
    (used : ℕ) (b : Bool) (x y : Option ℕ)
    → InPool used x
    → InPool used y
    → InPool used (if b then x else y)
if-InPool used true x y p q = p
if-InPool used false x y p q = q

ramfs_finddir-InPool :
    (st : Vfs) (cur : ℕ) (name : CString)
    → IsValid st
    → cur < st.used
    → InPool st.used (ramfs_finddir st (some cur) name)
unfolding ramfs_finddir
ramfs_finddir-InPool st cur name v l =
    if-InPool st.used (is_dir (st.pool cur).type) _ none found (λ i e. absurd (cc))
  where
    found :
        InPool st.used (elim (find_index (child_named st cur name) 0 (st.pool cur).child_count) [
          | none ↦ none
          | some k ↦ some ((st.pool cur).children k)
        ])
    found = elim (Option-cases (find_index (child_named st cur name) 0 (st.pool cur).child_count)) [
      | inl e ↦ rw e (λ i n. absurd (cc))
      | inr (k, e) ↦ rw e (λ i n.
          let f = find_index-some (child_named st cur name) 0 (st.pool cur).child_count e in
          ground (arith, (v.nodes cur l).children_in k (omega (arith, f.below))))
    ]

vfs_finddir-InPool :
    (st : Vfs) (cur : ℕ) (name : CString)
    → IsValid st
    → cur < st.used
    → InPool st.used (vfs_finddir st (some cur) name)
unfolding vfs_finddir
vfs_finddir-InPool st cur name v l = elim (Option-cases (st.pool cur).ops) [
  | inl e ↦ rw (vfs_finddir, e) (λ i n. absurd (cc))
  | inr (ramfs_ops, e) ↦ rw (vfs_finddir, e) (ramfs_finddir-InPool st cur name v l)
]

go_up-le : (st : Vfs) (cur : ℕ) → IsValid st → cur < st.used → go_up st cur < st.used
go_up-le st cur v l = elim (Option-cases (st.pool cur).parent) [
  | inl e ↦ rw (go_up, e) l
  | inr (p, e) ↦ rw (go_up, e) ((v.nodes cur l).parent_in p e)
]

enter-InPool :
    (st : Vfs) (cur : ℕ) (component : CString)
    → IsValid st
    → cur < st.used
    → InPool st.used (enter st cur component)
unfolding enter
enter-InPool st cur component v l =
    if-InPool st.used (is_zero (kstrcmp component dot)) (some cur) _ (λ i e. ground arith)
      (if-InPool st.used (is_zero (kstrcmp component dot_dot)) (some (go_up st cur)) _
        (λ i e. ground (arith, go_up-le st cur v l)) (vfs_finddir-InPool st cur component v l))

length-skip_slashes : (s : CString) → length (skip_slashes s) ≤ length s
unfolding skip_slashes
length-skip_slashes [] = omega arith
length-skip_slashes (c ∷ s) = ground (arith, length-skip_slashes s)

-- What is left of the path after a component.
length-take_component : (max : ℕ) (s : CString) → length (take_component max s).1 ≤ length s
unfolding take_component
length-take_component zero s = omega arith
length-take_component (suc max) [] = omega arith
length-take_component (suc max) (c ∷ s) = ground (arith, length-take_component max s)

skip_slashes-head :
    (path : CString) (c : ℕ) (s : CString) → skip_slashes path ≡ c ∷ s → (c == b'/') ≡ false
unfolding skip_slashes
skip_slashes-head [] c s e = absurd (cc)
skip_slashes-head (x ∷ path) c s e = elim (Bool-cases (x == b'/')) [
  | inl slash ↦ skip_slashes-head path c s (ground arith)
  | inr other ↦ ground arith
]

-- A component takes a byte of the path at least.
length-component :
    (max c : ℕ) (s : CString)
    → (c == b'/') ≡ false
    → length (take_component (suc max) (c ∷ s)).1 ≤ length s
unfolding take_component
length-component max c s e = rw e (length-take_component max s)

List-cases : (s : CString) → (s ≡ []) ⊎ ((c : ℕ) × (t : CString) × (s ≡ c ∷ t))
List-cases [] = inl refl
List-cases (c ∷ t) = inr (c, t, refl)

resolve_loop-Lands :
    (st : Vfs) (fuel cur : ℕ) (path : CString)
    → IsValid st
    → cur < st.used
    → length path < fuel
    → Lands st (resolve_loop st fuel cur path)
unfolding resolve_loop
resolve_loop-Lands st zero cur path v l f = absurd (omega arith)
resolve_loop-Lands st (suc fuel) cur path v l f = elim (List-cases (skip_slashes path)) [
  | inl e ↦ rw (resolve_loop, e) (lands cur l)
  | inr (c, s, e) ↦ elim (Option-cases (enter st cur (take_component 63 (c ∷ s)).0)) [
    | inl n ↦ rw (resolve_loop, e, n) nowhere
    | inr (next, n) ↦
        let shorter : length (take_component 63 (c ∷ s)).1 < fuel = omega (
          arith,
          length-component 62 c s (skip_slashes-head path c s e),
          length-skip_slashes path,
          ap length e,
        ) in
        rw (resolve_loop, e, n)
          (resolve_loop-Lands st fuel next (take_component 63 (c ∷ s)).1 v
            (enter-InPool st cur (take_component 63 (c ∷ s)).0 v l next n) shorter)
  ]
]

-- In a valid file system, vfs_resolve_path comes to an end, within one round more than the path has
-- bytes, at a node of the tree or at no node.
pub vfs_resolve_path-Lands :
    (st : Vfs) (path : CString) → IsValid st → Lands st (vfs_resolve_path st path)
unfolding vfs_resolve_path
vfs_resolve_path-Lands st path v = elim (Bool-cases (is_absolute path)) [
  | inl a ↦
      rw (vfs_resolve_path, a)
        (resolve_loop-Lands st (length path + 1) st.root path v v.root_in (omega arith))
  | inr r ↦
      rw (vfs_resolve_path, r)
        (resolve_loop-Lands st (length path + 1) st.cwd path v v.cwd_in (omega arith))
]
