-- ===== src/Store/Children.antt =====
-- What `add_fuse_child` and `move_fuse_node` do to the mount: they run without a fault, the children
-- of a node keep distinct names, and the tree stays linked.
use ical_fs.Base.{
  suc, ◌≡◌, refl, ap, ◌∙◌, ◌≢◌, inl, inr, Bytes, true, false, none, some, [], ◌∷◌, ◌++◌, arith,
  ◌==◌, Bool-cases, Option-cases, length, Run, ok, fault, Cmd, Returns, if◌then◌else◌, Returns-mono,
}
use ical_fs.Tree.{Ptr, Heap, load, add_child}
use ical_fs.Tree.Links.{live, children_of, parent_of, content_of, Added}
use ical_fs.Tree.Moves.{Linked, add_child-Linked}
use ical_fs.HashMap.{HashMap, listed}
use ical_fs.Store.{
  AgendaEntry, Node, Mount, on_heap, get_node_filename, add_fuse_child, pick_filename,
}
use ical_fs.Store.Names.{filename_of, file_in, vdir_name_of, names_of, pick_filename_total}
use ical_fs.Store.Siblings.{
  vdir_name_of-renamed, Renamed, renamed, set_node_filename-renamed, renamed-Renamed,
  Renamed-Linked, UniqueNames, IsTree, names_of-append, names_of-Renamed, names_of-SameNodes,
  DistinctNames-append, children_of-AllLive,
}

module _ {M : HashMap} where
  pub Returns-on_heap :
      {A : Type 0} (P : A → Heap AgendaEntry → Type 0) (m : Cmd (Heap AgendaEntry) A) (s : Mount M)
      → Returns P (m s.heap)
      → Returns (λ a s'. P a s'.heap × (s' ≡ record s { heap = s'.heap })) (on_heap m s)
  Returns-on_heap {A} P m s h = go (m s.heap) h
    where
      go :
          (r : Run (Heap AgendaEntry) A)
          → Returns P r
          → Returns
              (λ a s'. P a s'.heap × (s' ≡ record s { heap = s'.heap }))
              (elim r [ ok a h' ↦ ok a (record s { heap = h' }) | fault e ↦ fault e ])
      go (ok a h') p = (p, refl)
      go (fault e) p = p

  -- `child`, which had no parent, is now the last child of `parent`, with a name that none of the
  -- others has; it kept its name if that was free. Names of other nodes, and all but the heap of
  -- the mount, are as before.
  pub record Joined (parent child : Ptr) (s s' : Mount M) : Type 0 where
    pub is_tree : IsTree s'.heap
    pub live_same : (x : Ptr) → live s'.heap x ≡ live s.heap x
    pub children_joined :
        (x : Ptr)
        → children_of s'.heap x
          ≡ (if x == parent then children_of s.heap x ++ child ∷ [] else children_of s.heap x)
    pub parent_joined :
        (x : Ptr) → parent_of s'.heap x ≡ (if x == child then some parent else parent_of s.heap x)
    pub fresh_name :
        listed (filename_of s'.heap child) (names_of s.heap (children_of s.heap parent)) ≡ false
    pub kept_name :
        listed (filename_of s.heap child) (names_of s.heap (children_of s.heap parent)) ≡ false
        → filename_of s'.heap child ≡ filename_of s.heap child
    pub names_same : (x : Ptr) → x ≢ child → filename_of s'.heap x ≡ filename_of s.heap x
    pub files_same : (x : Ptr) → vdir_name_of s'.heap x ≡ vdir_name_of s.heap x
    pub rest_same : s' ≡ record s { heap = s'.heap }

  module _ (parent child : Ptr) (s : Mount M) (t : IsTree s.heap) where
    rename_and_add-UniqueNames :
        (name : Bytes) (h h' : Heap AgendaEntry)
        → parent_of s.heap child ≡ none
        → listed name (names_of s.heap (children_of s.heap parent)) ≡ false
        → Renamed child name s.heap h
        → Added parent child h h'
        → UniqueNames h'
    rename_and_add-UniqueNames name h h' free fresh r a x =
        let out =
          names_of-Renamed child name s.heap h (children_of s.heap x) r
            (ground (arith, t.linked.links x child)) in
        let named : filename_of h child ≡ name = ground (arith, r.name_set child) in
        elim (Bool-cases (x == parent)) [
          | inl y ↦
              rw
                (
                  a.children_added x,
                  y,
                  names_of-SameNodes h h' _ a.nodes,
                  r.children_same x,
                  names_of-append h,
                  out,
                  named,
                )
                (DistinctNames-append name _ (t.unique x) (ground arith))
          | inr n ↦
              rw (a.children_added x, n, names_of-SameNodes h h' _ a.nodes, r.children_same x, out)
                (t.unique x)
        ]

    steps-Joined :
        (name : Bytes) (h h' : Heap AgendaEntry)
        → parent_of s.heap child ≡ none
        → listed name (names_of s.heap (children_of s.heap parent)) ≡ false
        → (listed (filename_of s.heap child) (names_of s.heap (children_of s.heap parent)) ≡ false
            → name ≡ filename_of s.heap child)
        → Renamed child name s.heap h
        → ((x : Ptr) → vdir_name_of h x ≡ vdir_name_of s.heap x)
        → Linked h'
        → Added parent child h h'
        → Joined parent child s (record s { heap = h' })
    steps-Joined name h h' free fresh kept r files l a = record {
      is_tree = record { linked = l; unique = rename_and_add-UniqueNames name h h' free fresh r a };
      live_same = λ x. a.nodes.live_same x ∙ r.live_same x;
      children_joined = λ x. ground (arith, a.children_added x, r.children_same x);
      parent_joined = λ x. ground (arith, a.parent_set x, r.parent_same x);
      fresh_name = ground (arith, a.nodes.content_same child, r.name_set child);
      kept_name = λ u. ground (arith, a.nodes.content_same child, r.name_set child, kept u);
      names_same = λ x ne. ground (arith, a.nodes.content_same x, r.name_set x);
      files_same = λ x. ap file_in (a.nodes.content_same x) ∙ files x;
      rest_same = refl;
    }

    add_fuse_child-renamed :
        (name : Bytes) {n m : Node} {e : AgendaEntry}
        → s.heap.cell child ≡ some n
        → s.heap.cell parent ≡ some m
        → n.content ≡ some e
        → pick_filename (suc (suc (length m.children))) e.filename e.filename 1 m.children s
          ≡ ok name s
        → add_fuse_child parent child s
          ≡ on_heap (add_child parent child) (record s { heap = renamed child name n e s.heap })
    unfolding add_fuse_child load get_node_filename
    add_fuse_child-renamed name p q c ran =
        ground (arith, set_node_filename-renamed s child name p c)

    -- In a linked heap with different names of siblings, a node with an entry and without a parent is added below a live node: the run has
    -- no fault, the heap is such a heap again, and the node is the last child there, under a name that
    -- no sibling has, its own if that was free; all else is as before.
    pub add_fuse_child-Joined :
        {e : AgendaEntry}
        → live s.heap parent ≡ true
        → content_of s.heap child ≡ some e
        → parent_of s.heap child ≡ none
        → Returns (λ r s'. (r ≡ 0) × Joined parent child s s') (add_fuse_child parent child s)
    add_fuse_child-Joined {e} lp entry free = elim (Option-cases (s.heap.cell child)) [
      | inl dead ↦ cc
      | inr (n, p) ↦ elim (Option-cases (s.heap.cell parent)) [
        | inl dead ↦ cc
        | inr (m, q) ↦
            let (name, ran, fresh, kept) =
              pick_filename_total s (filename_of s.heap child) (children_of s.heap parent)
                (children_of-AllLive s.heap parent t.linked) in
            let c : n.content ≡ some e = ground arith in
            let r = renamed-Renamed child name s.heap e p in
            let h = renamed child name n e s.heap in
            rw (add_fuse_child-renamed name p q c (ground arith)) (
              Returns-mono _ _ (on_heap (add_child parent child) (record s { heap = h }))
                (Returns-on_heap _ (add_child parent child) (record s { heap = h })
                  (add_child-Linked parent child h (Renamed-Linked child name s.heap h t.linked r)
                    (r.live_same parent ∙ lp) (r.live_same child ∙ ground arith)
                    (r.parent_same child ∙ free)))
                λ u s' ((z, l, a), same). (
                  z,
                  rw same (
                      steps-Joined name h s'.heap free fresh kept r
                        (vdir_name_of-renamed child name s.heap e p c) l a),
                ))
      ]
    ]
