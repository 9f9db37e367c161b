-- ===== src/Store/Acyclic.antt =====
-- What `add_fuse_child` and `move_fuse_node` do to a heap in which no node is below itself.
use ical_fs.Base.{
  ◌≡◌, sym, ◌⊎◌, inl, inr, true, none, some, [], ◌∷◌, arith, ◌==◌, Bool-cases, Returns,
  Returns-mono,
}
use mathlib.Core.Path.{subst}
use ical_fs.Tree.{Ptr, Heap}
use ical_fs.Tree.Links.{has, without, live, children_of, parent_of, content_of}
use ical_fs.Tree.Moves.{Linked, has-append, has-without}
use ical_fs.Tree.Freeing.{Under, itself, below}
use ical_fs.HashMap.{HashMap}
use ical_fs.Store.{AgendaEntry, Mount, add_fuse_child, move_fuse_node}
use ical_fs.Store.Siblings.{IsTree}
use ical_fs.Store.Children.{Joined, add_fuse_child-Joined}
use ical_fs.Store.Relocation.{UniqueBut, Relocated, move_fuse_node-Relocated}

module _ {D : Type 0} where
  -- No node is at or below one of its children.
  abbrev pub NoLoop : Heap D → Type 0
  NoLoop h = (p c : Ptr) → has c (children_of h p) ≡ true → Under h c p → ⊥

  -- A child in the second heap was one in the first, or it is `child` below `parent`.
  abbrev pub OneEdge : Ptr → Ptr → Heap D → Heap D → Type 0
  OneEdge parent child h h' =
      (p c : Ptr)
      → has c (children_of h' p) ≡ true
      → (has c (children_of h p) ≡ true) ⊎ ((p ≡ parent) × (c ≡ child))

  Under-trans : {h : Heap D} {a b c : Ptr} → Under h a b → Under h b c → Under h a c
  Under-trans itself v = v
  Under-trans (below x m u) v = below x m (Under-trans u v)

  module _ (parent child : Ptr) (h h' : Heap D) (edge : OneEdge parent child h h') where
    -- A way down in the second heap is one in the first, or goes over the edge.
    Under-OneEdge : {a b : Ptr} → Under h' a b → Under h a b ⊎ (Under h a parent × Under h child b)
    Under-OneEdge itself = inl itself
    Under-OneEdge {a} {b} (below c m u) = elim (edge a c m) [
      | inl old ↦ elim (Under-OneEdge u) [
        | inl way ↦ inl (below c old way)
        | inr (up, down) ↦ inr (below c old up, down)
      ]
      | inr (here, there) ↦
          let start : Under h a parent = subst (λ x. Under h x parent) (sym here) itself in
          elim (Under-OneEdge u) [
            | inl way ↦ inr (start, subst (λ x. Under h x b) there way)
            | inr (up, down) ↦ inr (start, down)
          ]
    ]

    NoLoop-OneEdge : NoLoop h → (Under h child parent → ⊥) → NoLoop h'
    NoLoop-OneEdge free apart p c m u = elim (Under-OneEdge u) [
      | inl way ↦ elim (edge p c m) [
        | inl old ↦ free p c old way
        | inr (here, there) ↦
            apart (subst (λ x. Under h x parent) there (subst (Under h c) here way))
      ]
      | inr (up, down) ↦ elim (edge p c m) [
        | inl old ↦ apart (Under-trans down (below c old up))
        | inr (here, there) ↦ apart (subst (Under h child) here down)
      ]
    ]

module _ {M : HashMap} (parent child : Ptr) (s s' : Mount M) where
  Joined-OneEdge : Joined parent child s s' → OneEdge parent child s.heap s'.heap
  Joined-OneEdge j p c m = elim (Bool-cases (p == parent)) [
    | inl here ↦
        ground (arith, j.children_joined p, has-append c (children_of s.heap p) (child ∷ []))
    | inr away ↦ ground (arith, j.children_joined p)
  ]

  Relocated-OneEdge :
      Linked s.heap → Relocated parent child s s' → OneEdge parent child s.heap s'.heap
  Relocated-OneEdge l r p c m =
      let left = has-without c child (children_of s.heap p) (l.distinct p) in
      elim (Bool-cases (p == parent)) [
        | inl here ↦ ground (
          arith,
          r.children_relocated p,
          has-append c (without child (children_of s.heap p)) (child ∷ []),
          left,
        )
        | inr away ↦ ground (arith, r.children_relocated p, left)
      ]

module _ {M : HashMap} (parent child : Ptr) (s : Mount M) {e : AgendaEntry} where
  -- In a heap that is linked, in which siblings have different names and no node is below itself, let
  -- a node with an entry and without a parent be added below a live node, which is not the node nor
  -- below it. The run has no fault, the heap is such a heap again, and the node is the last child
  -- there, under a name that no sibling has, its own if that was free; all else is as before.
  pub add_fuse_child-NoLoop :
      IsTree s.heap
      → NoLoop s.heap
      → (Under s.heap child parent → ⊥)
      → live s.heap parent ≡ true
      → content_of s.heap child ≡ some e
      → parent_of s.heap child ≡ none
      → Returns
          (λ r s'. (r ≡ 0) × NoLoop s'.heap × Joined parent child s s')
          (add_fuse_child parent child s)
  add_fuse_child-NoLoop t free apart lp entry top =
      Returns-mono _ _ (add_fuse_child parent child s)
        (add_fuse_child-Joined parent child s t lp entry top)
        λ r s' (z, j). (
          z,
          NoLoop-OneEdge parent child s.heap s'.heap (Joined-OneEdge parent child s s' j) free
              apart,
          j,
        )

  -- In a linked heap in which siblings have different names, but perhaps for the node itself, and no
  -- node is below itself, let a node with an entry be moved below a live node, which is not the node
  -- nor below it. Wherever the node stood and whatever its name, the run has no fault, the heap is
  -- linked, siblings have different names and no node is below itself, and the node is the last child
  -- there, under a name that no sibling has, its own if that was free; all else is as before.
  pub move_fuse_node-NoLoop :
      Linked s.heap
      → UniqueBut child s.heap
      → NoLoop s.heap
      → (Under s.heap child parent → ⊥)
      → live s.heap parent ≡ true
      → content_of s.heap child ≡ some e
      → Returns
          (λ r s'. (r ≡ 0) × NoLoop s'.heap × Relocated parent child s s')
          (move_fuse_node parent child s)
  move_fuse_node-NoLoop l u free apart lp entry =
      Returns-mono _ _ (move_fuse_node parent child s)
        (move_fuse_node-Relocated parent child s l u lp entry)
        λ r s' (z, v). (
          z,
          NoLoop-OneEdge parent child s.heap s'.heap (Relocated-OneEdge parent child s s' l v) free
              apart,
          v,
        )
