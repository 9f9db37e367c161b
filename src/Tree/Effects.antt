-- ===== src/Tree/Effects.antt =====
-- The heaps that `add_child` and `detach_tree_node` leave, written out, and that they have the
-- effects of Tree/Links.antt.
use ical_fs.Base.{
  ℕ, suc, ◌≡◌, ◌≢◌, inl, inr, true, false, Option, none, some, List, [], ◌∷◌, ◌++◌, arith, ◌==◌,
  Bool-cases, length-append, ok,
}
use ical_fs.Tree.{
  Ptr, TreeNode, Heap, child_index, shift_left, write, load, store, grow, add_child,
  detach_tree_node,
}
use ical_fs.Tree.Links.{has, without, without-has, length-without-le, children_of, Added, Detached}

-- The search finds a child, and the shift takes it out.
child_index_finds :
    (c : Ptr) (cs : List Ptr)
    → has c cs ≡ true
    → (i : ℕ) × (child_index c cs ≡ some i) × (shift_left i cs ≡ without c cs)
unfolding child_index shift_left
child_index_finds c [] h = cc
child_index_finds c (d ∷ ds) h = elim (Bool-cases (c == d)) [
  | inl y ↦ (0, ground arith, ground arith)
  | inr n ↦
      let (i, found, shifted) = child_index_finds c ds (ground arith) in
      (suc i, ground arith, ground arith)
]

module _ {D : Type 0} where
  set_parent : Option Ptr → Option (TreeNode D) → Option (TreeNode D)
  set_parent p none = none
  set_parent p (some c) = some (record c { parent = p })

  -- The heap after `add_child`, where the parent's node is `n`.
  pub added : Ptr → Ptr → TreeNode D → Heap D → Heap D
  unfolding set_parent
  added parent child n h =
      let h' =
        write parent
          (some (record n { children = n.children ++ child ∷ []; child_capacity = grow n })) h in
      write child (set_parent (some parent) (h'.cell child)) h'

  pub add_child-added :
      (parent child : Ptr) (h : Heap D) {n m : TreeNode D}
      → h.cell parent ≡ some n
      → h.cell child ≡ some m
      → add_child parent child h ≡ ok 0 (added parent child n h)
  unfolding add_child load store write added
  add_child-added parent child h e f = ground arith

  pub added-Added :
      (parent child : Ptr) (h : Heap D) {n m : TreeNode D}
      → h.cell parent ≡ some n
      → h.cell child ≡ some m
      → Added parent child h (added parent child n h)
  unfolding write added grow
  added-Added parent child h {n} e f = record {
    nodes = record {
      live_same = λ x. ground arith;
      content_same = λ x. ground arith;
      next_same = ground arith;
    };
    children_added = λ x. ground arith;
    parent_set = λ x. ground arith;
    room = λ x fits. ground (arith, length-append n.children (child ∷ []));
  }

  -- The heap after `detach_tree_node`, where the parent's node is `n`.
  pub detached : Ptr → Ptr → TreeNode D → Heap D → Heap D
  unfolding set_parent
  detached parent child n h =
      let h' = write parent (some (record n { children = without child n.children })) h in
      write child (set_parent none (h'.cell child)) h'

  pub detach_tree_node-detached :
      (parent child : Ptr) (h : Heap D) {n m : TreeNode D}
      → h.cell parent ≡ some n
      → h.cell child ≡ some m
      → m.parent ≡ some parent
      → has child n.children ≡ true
      → detach_tree_node child h ≡ ok true (detached parent child n h)
  unfolding detach_tree_node load store write detached
  detach_tree_node-detached parent child h {n} e f q i =
      let (k, found, shifted) = child_index_finds child n.children i in ground arith

  pub detached-Detached :
      (parent child : Ptr) (h : Heap D) {n m : TreeNode D}
      → h.cell parent ≡ some n
      → h.cell child ≡ some m
      → ((x : Ptr) → x ≢ parent → has child (children_of h x) ≡ false)
      → Detached child h (detached parent child n h)
  unfolding write detached
  detached-Detached parent child h {n} e f only = record {
    nodes = record {
      live_same = λ x. ground arith;
      content_same = λ x. ground arith;
      next_same = ground arith;
    };
    children_left = λ x. ground (arith, only x, without-has child (children_of h x));
    parent_cleared = λ x. ground arith;
    room = λ x fits. ground (arith, length-without-le child n.children);
  }

  -- A node without a parent stays where it is.
  pub detach_tree_node-free :
      (c : Ptr) (h : Heap D) {m : TreeNode D}
      → h.cell c ≡ some m
      → m.parent ≡ none
      → detach_tree_node c h ≡ ok false h
  unfolding detach_tree_node load
  detach_tree_node-free c h f top = ground arith
