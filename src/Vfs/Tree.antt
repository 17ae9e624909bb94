-- ===== src/Vfs/Tree.antt =====
-- kernel/vfs.cpp: the nodes stay in the pool and the links of the tree stay right.
use sabaka_os.Common.{
  ℕ, ◌+◌, ◌≤◌, ◌<◌, ◌≡◌, inl, inr, refl, ◌∙◌, ap, some, true, arith, update, update_self, update_ne,
  subst, sym, ◌==◌, Bool-cases,
}
use sabaka_os.KString.Text.{CString}
use sabaka_os.Vfs.Nodes.{
  VfsNode, Vfs, VfsNodeType, is_dir, put_node, fresh_node, add_child, vfs_max_file_data,
  vfs_max_nodes, vfs_max_children,
}
use sabaka_os.Vfs.Path.{vfs_init}

-- A node at `i`, of a pool of which `used` nodes are in use.
pub record NodeIsValid (pool : ℕ → VfsNode) (used i : ℕ) : Type 0 where
  pub few : (pool i).child_count ≤ vfs_max_children
  pub children_in : (k : ℕ) → k < (pool i).child_count → (pool i).children k < used
  pub linked : (k : ℕ) → k < (pool i).child_count → (pool ((pool i).children k)).parent ≡ some i
  pub parent_in : (p : ℕ) → (pool i).parent ≡ some p → p < used
  pub size_le : (pool i).size ≤ vfs_max_file_data

pub record IsValid (st : Vfs) : Type 0 where
  pub fits : st.used ≤ vfs_max_nodes
  pub root_in : st.root < st.used
  pub cwd_in : st.cwd < st.used
  pub cwd_dir : is_dir (st.pool st.cwd).type ≡ true
  pub nodes : (i : ℕ) → i < st.used → NodeIsValid st.pool st.used i

pub vfs_init-IsValid : (st : Vfs) → IsValid (vfs_init st)
unfolding vfs_init
vfs_init-IsValid st = record {
  fits = omega arith;
  root_in = omega arith;
  cwd_in = omega arith;
  cwd_dir = ground arith;
  nodes = λ i l.
      let e : i ≡ 0 = omega arith in
      subst (NodeIsValid _ 1) (sym e) (record {
        few = omega arith;
        children_in = λ k c. omega arith;
        linked = λ k c. refl;
        parent_in = λ p q. ground arith;
        size_le = omega arith;
      });
}

-- A field that the new node has from the old one.
pub field-update {ℓ} :
    {A : Type ℓ} (field : VfsNode → A) (pool : ℕ → VfsNode) (i : ℕ) (n : VfsNode) (j : ℕ)
    → field n ≡ field (pool i)
    → field (update pool i n j) ≡ field (pool j)
field-update field pool i n j e = elim (Bool-cases (i == j)) [
  | inl here ↦ let e' : i ≡ j = ground arith in rw here (e ∙ ap (λ k. field (pool k)) e')
  | inr other ↦ rw other refl
]

-- The links of two nodes are the same.
pub record Alike (n n' : VfsNode) : Type 0 where
  pub count_eq : n'.child_count ≡ n.child_count
  pub children_eq : n'.children ≡ n.children
  pub parent_eq : n'.parent ≡ n.parent

NodeIsValid-congr :
    (pool pool' : ℕ → VfsNode) (used used' i : ℕ)
    → NodeIsValid pool used i
    → used ≤ used'
    → ((j : ℕ) → j < used → (pool' j).parent ≡ (pool j).parent)
    → Alike (pool i) (pool' i)
    → (pool' i).size ≤ vfs_max_file_data
    → NodeIsValid pool' used' i
NodeIsValid-congr pool pool' used used' i v u h a s = record {
  few = omega (arith, v.few, a.count_eq);
  children_in = λ k b.
      let b' : k < (pool i).child_count = subst (λ c. k < c) a.count_eq b in
      omega (arith, v.children_in k b', ap (λ (c : ℕ → ℕ). c k) a.children_eq);
  linked = λ k b.
      let b' : k < (pool i).child_count = subst (λ c. k < c) a.count_eq b in
      ap (λ (c : ℕ → ℕ). (pool' (c k)).parent) a.children_eq
      ∙ h ((pool i).children k) (v.children_in k b')
      ∙ v.linked k b';
  parent_in = λ p e. omega (arith, v.parent_in p (sym a.parent_eq ∙ e));
  size_le = s;
}

pub put_node-IsValid :
    (st : Vfs) (i : ℕ) (n : VfsNode)
    → IsValid st
    → Alike (st.pool i) n
    → n.type ≡ (st.pool i).type
    → n.size ≤ vfs_max_file_data
    → IsValid (put_node st i n)
put_node-IsValid st i n v a t s = record {
  fits = v.fits;
  root_in = v.root_in;
  cwd_in = v.cwd_in;
  cwd_dir = ap is_dir (field-update (λ x. x.type) st.pool i n st.cwd t) ∙ v.cwd_dir;
  nodes = λ j l.
      NodeIsValid-congr st.pool (update st.pool i n) st.used st.used j (v.nodes j l) (omega arith)
        (λ k b. field-update (λ x. x.parent) st.pool i n k a.parent_eq)
        (record {
          count_eq = field-update (λ x. x.child_count) st.pool i n j a.count_eq;
          children_eq = field-update (λ x. x.children) st.pool i n j a.children_eq;
          parent_eq = field-update (λ x. x.parent) st.pool i n j a.parent_eq;
        })
        (small j (v.nodes j l).size_le);
}
  where
    small :
        (j : ℕ)
        → (st.pool j).size ≤ vfs_max_file_data
        → (update st.pool i n j).size ≤ vfs_max_file_data
    small j l = ground arith

-- A new node at the end of the pool, to which nothing leads yet.
add_node-IsValid :
    (st : Vfs) (n : VfsNode)
    → IsValid st
    → st.used < vfs_max_nodes
    → n.child_count ≡ 0
    → n.size ≤ vfs_max_file_data
    → ((p : ℕ) → n.parent ≡ some p → p < st.used)
    → IsValid (record st { pool = update st.pool st.used n; used = st.used + 1 })
add_node-IsValid st n v u c s p = record {
  fits = omega arith;
  root_in = omega (arith, v.root_in);
  cwd_in = omega (arith, v.cwd_in);
  cwd_dir = rw (update_ne st.pool st.used st.cwd n (omega (arith, v.cwd_in))) v.cwd_dir;
  nodes = λ j l. elim (Bool-cases (st.used == j)) [
    | inl new ↦
        let e : st.used ≡ j = ground arith in
        let here : update st.pool st.used n j ≡ n = rw new refl in
        record {
          few = rw (here, c) (omega arith);
          children_in =
              λ k b. absurd (omega (arith, b, ap (λ (x : VfsNode). x.child_count) here, c));
          linked = λ k b. absurd (omega (arith, b, ap (λ (x : VfsNode). x.child_count) here, c));
          parent_in = λ q b. omega (arith, p q (sym (ap (λ (x : VfsNode). x.parent) here) ∙ b));
          size_le = rw here s;
        }
    | inr old ↦
        let l' : j < st.used = ground arith in
        let same : update st.pool st.used n j ≡ st.pool j = rw old refl in
        NodeIsValid-congr st.pool (update st.pool st.used n) st.used (st.used + 1) j (v.nodes j l')
          (omega arith)
          (λ k b. ap (λ (x : VfsNode). x.parent) (update_ne st.pool st.used k n (omega arith)))
          (record {
            count_eq = ap (λ (x : VfsNode). x.child_count) same;
            children_eq = ap (λ (x : VfsNode). x.children) same;
            parent_eq = ap (λ (x : VfsNode). x.parent) same;
          })
          (rw same (v.nodes j l').size_le)
  ];
}

-- A node at `c`, whose parent is `i`, becomes the last child of `i`.
link-IsValid :
    (st : Vfs) (i c : ℕ) (n : VfsNode)
    → IsValid st
    → i < st.used
    → c < st.used
    → (st.pool c).parent ≡ some i
    → (st.pool i).child_count < vfs_max_children
    → n.child_count ≡ (st.pool i).child_count + 1
    → n.children ≡ update (st.pool i).children (st.pool i).child_count c
    → n.parent ≡ (st.pool i).parent
    → n.type ≡ (st.pool i).type
    → n.size ≤ vfs_max_file_data
    → IsValid (put_node st i n)
link-IsValid st i c n v li lc p f cnt ch pa t s = record {
  fits = v.fits;
  root_in = v.root_in;
  cwd_in = v.cwd_in;
  cwd_dir = ap is_dir (field-update (λ x. x.type) st.pool i n st.cwd t) ∙ v.cwd_dir;
  nodes = λ j l. elim (Bool-cases (i == j)) [
    | inl here ↦
        let e : i ≡ j = ground arith in subst (NodeIsValid (update st.pool i n) st.used) e parent
    | inr other ↦
        let same : update st.pool i n j ≡ st.pool j = rw other refl in
        NodeIsValid-congr st.pool (update st.pool i n) st.used st.used j (v.nodes j l) (omega arith)
          (λ k b. field-update (λ x. x.parent) st.pool i n k pa)
          (record {
            count_eq = ap (λ (x : VfsNode). x.child_count) same;
            children_eq = ap (λ (x : VfsNode). x.children) same;
            parent_eq = ap (λ (x : VfsNode). x.parent) same;
          })
          (rw same (v.nodes j l).size_le)
  ];
}
  where
    -- The new child, or one of the old.
    child :
        (k : ℕ)
        → k < (st.pool i).child_count + 1
        → (update (st.pool i).children (st.pool i).child_count c k < st.used)
          × ((st.pool (update (st.pool i).children (st.pool i).child_count c k)).parent ≡ some i)
    child k b = elim (Bool-cases ((st.pool i).child_count == k)) [
      | inl new ↦ rw new (lc, p)
      | inr old ↦
          let b' : k < (st.pool i).child_count = ground arith in
          rw old ((v.nodes i li).children_in k b', (v.nodes i li).linked k b')
    ]

    here : update st.pool i n i ≡ n
    here = update_self st.pool i n

    parent : NodeIsValid (update st.pool i n) st.used i
    parent =
        let count : (update st.pool i n i).child_count ≡ (st.pool i).child_count + 1 =
          ap (λ (x : VfsNode). x.child_count) here ∙ cnt in
        let children : (update st.pool i n i).children
            ≡ update (st.pool i).children (st.pool i).child_count c =
          ap (λ (x : VfsNode). x.children) here ∙ ch in
        record {
          few = omega (arith, f, count);
          children_in = λ k b.
              omega
                (arith, ap (λ (g : ℕ → ℕ). g k) children, (child k (omega (arith, b, count))).0);
          linked = λ k b.
              field-update (λ x. x.parent) st.pool i n ((update st.pool i n i).children k) pa
              ∙ ap (λ (g : ℕ → ℕ). (st.pool (g k)).parent) children
              ∙ (child k (omega (arith, b, count))).1;
          parent_in = λ q b.
              (v.nodes i li).parent_in q (sym (ap (λ (x : VfsNode). x.parent) here ∙ pa) ∙ b);
          size_le = rw here s;
        }

pub add_child-IsValid :
    (st : Vfs) (i : ℕ) (name : CString) (type : VfsNodeType)
    → IsValid st
    → i < st.used
    → st.used < vfs_max_nodes
    → (st.pool i).child_count < vfs_max_children
    → IsValid (add_child st i st.used name type)
add_child-IsValid st i name type v l u f =
    let child = record fresh_node {
      name = name;
      type = type;
      ops = (st.pool i).ops;
      parent = some i;
    } in
    let same : update st.pool st.used child i ≡ st.pool i =
      update_ne st.pool st.used i child (omega arith) in
    link-IsValid (record st { pool = update st.pool st.used child; used = st.used + 1 }) i st.used _
      (add_node-IsValid st child v u refl (omega arith) (λ p e. ground arith)) (omega arith)
      (omega arith) (ap (λ (x : VfsNode). x.parent) (update_self st.pool st.used child))
      (omega (arith, f, ap (λ (x : VfsNode). x.child_count) same))
      (ap (λ (x : VfsNode). x.child_count + 1) (sym same))
      (ap (λ (x : VfsNode). update x.children x.child_count st.used) (sym same))
      (ap (λ (x : VfsNode). x.parent) (sym same)) (ap (λ (x : VfsNode). x.type) (sym same))
      (v.nodes i l).size_le
