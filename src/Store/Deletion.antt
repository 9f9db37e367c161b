-- ===== src/Store/Deletion.antt =====
-- `delete_fuse_node` of a node without children: it leaves its parent and the index, and its memory
-- is given back.
use ical_fs.Base.{
  ℕ, suc, ◌≡◌, refl, ◌∙◌, ◌≢◌, inl, inr, Bytes, true, false, none, some, List, [], ◌∷◌, arith,
  Option-cases, ok, Cmd, Returns, Returns-and_then, and_then,
}
use ical_fs.Tree.{Ptr, Heap, load, write, detach_tree_node, free_tree}
use ical_fs.Tree.Links.{has, without, live, children_of, parent_of, content_of, Detached}
use ical_fs.Tree.Moves.{Linked, detach_tree_node-Linked}
use ical_fs.HashMap.{HashMap}
use ical_fs.Store.{AgendaEntry, Node, Mount, on_heap, get_entry, delete_fuse_node}
use ical_fs.Store.Names.{filename_of, names_of}
use ical_fs.Store.Siblings.{IsTree, names_of-SameNodes, DistinctNames-without}
use ical_fs.Store.Children.{Returns-on_heap}

-- A cell that is given back, of a node without links.
record Freed (child : Ptr) (h h' : Heap AgendaEntry) : Type 0 where
  gone : live h' child ≡ false
  live_same : (x : Ptr) → x ≢ child → live h' x ≡ live h x
  children_same : (x : Ptr) → children_of h' x ≡ children_of h x
  parent_same : (x : Ptr) → parent_of h' x ≡ parent_of h x
  names_same : (x : Ptr) → x ≢ child → filename_of h' x ≡ filename_of h x
  content_same : (x : Ptr) → x ≢ child → content_of h' x ≡ content_of h x
  linked : Linked h'

free_tree-leaf :
    (child : Ptr) (fuel : ℕ) (h : Heap AgendaEntry)
    → live h child ≡ true
    → children_of h child ≡ []
    → free_tree (suc fuel) child h ≡ ok tt (write child none h)
unfolding free_tree load
free_tree-leaf child fuel h l leaf = elim (Option-cases (h.cell child)) [
  | inl dead ↦ cc
  | inr (n, e) ↦ let none_left : n.children ≡ [] = ground arith in ground arith
]

write-Freed :
    (child : Ptr) (h : Heap AgendaEntry)
    → Linked h
    → children_of h child ≡ []
    → parent_of h child ≡ none
    → Freed child h (write child none h)
unfolding write
write-Freed child h l leaf free = record {
  gone = ground arith;
  live_same = λ x ne. ground arith;
  children_same = λ x. ground arith;
  parent_same = λ x. ground arith;
  names_same = λ x ne. ground arith;
  content_same = λ x ne. ground arith;
  linked = record {
    links = λ p c. ground (arith, l.links p c);
    distinct = λ p. ground (arith, l.distinct p);
    fits = λ p. ground (arith, l.fits p);
    unused = λ p far. ground (arith, l.unused p far);
  };
}

names_of-Freed :
    (child : Ptr) (h h' : Heap AgendaEntry) (cs : List Ptr)
    → Freed child h h'
    → has child cs ≡ false
    → names_of h' cs ≡ names_of h cs
names_of-Freed child h h' [] f out = refl
names_of-Freed child h h' (d ∷ cs) f out =
    ground (arith, f.names_same d, names_of-Freed child h h' cs f)

module _ {M : HashMap} where
  -- `child`, which had the file name `file` in the vdir, is no longer a node, nor a child of any,
  -- nor in the index; every other node, name and key is as before, and so is the rest of the mount.
  pub record Deleted (child : Ptr) (file : Bytes) (s s' : Mount M) : Type 0 where
    pub is_tree : IsTree s'.heap
    pub gone : live s'.heap child ≡ false
    pub live_same : (x : Ptr) → x ≢ child → live s'.heap x ≡ live s.heap x
    pub children_left : (x : Ptr) → children_of s'.heap x ≡ without child (children_of s.heap x)
    pub names_same : (x : Ptr) → x ≢ child → filename_of s'.heap x ≡ filename_of s.heap x
    pub content_same : (x : Ptr) → x ≢ child → content_of s'.heap x ≡ content_of s.heap x
    pub index : s'.entries_vdir ≡ M.remove s.entries_vdir file
    pub rest_same : s' ≡ record s { heap = s'.heap; entries_vdir = s'.entries_vdir }

  on_heap-ok :
      {A : Type 0} (m : Cmd (Heap AgendaEntry) A) (s : Mount M) {a : A} {h : Heap AgendaEntry}
      → m s.heap ≡ ok a h
      → on_heap m s ≡ ok a (record s { heap = h })
  on_heap-ok m s ran = cc

  module _ (child : Ptr) (s : Mount M) where
    steps-Deleted :
        (file : Bytes) (h h' : Heap AgendaEntry)
        → IsTree s.heap
        → Linked h
        → Detached child s.heap h
        → Freed child h h'
        → Deleted child file s (record s { heap = h'; entries_vdir = M.remove s.entries_vdir file })
    steps-Deleted file h h' t l d f = record {
      is_tree = record {
        linked = f.linked;
        unique = λ p.
            rw
              (
                f.children_same p,
                names_of-Freed child h h' (children_of h p) f
                    (ground (arith, l.links p child, d.parent_cleared child)),
                d.children_left p,
                names_of-SameNodes s.heap h (without child (children_of s.heap p)) d.nodes,
              )
              (DistinctNames-without s.heap child (children_of s.heap p) (t.unique p));
      };
      gone = f.gone;
      live_same = λ x ne. f.live_same x ne ∙ d.nodes.live_same x;
      children_left = λ x. f.children_same x ∙ d.children_left x;
      names_same = λ x ne. ground (arith, f.names_same x ne, d.nodes.content_same x);
      content_same = λ x ne. f.content_same x ne ∙ d.nodes.content_same x;
      index = refl;
      rest_same = refl;
    }

    delete_fuse_node-unindexed :
        {n : Node} {e : AgendaEntry}
        → s.heap.cell child ≡ some n
        → n.content ≡ some e
        → let s1 = record s { entries_vdir = M.remove s.entries_vdir e.filename_vdir } in
          delete_fuse_node child s
          ≡ and_then
              (on_heap (detach_tree_node child) s1)
              (λ _ s2. on_heap (free_tree (suc s2.heap.next) child) s2)
    unfolding delete_fuse_node get_entry load
    delete_fuse_node-unindexed c content = ground arith

    -- In a tree, a node with an entry and without children is deleted: the run has no fault, the
    -- heap is still a tree, and only the node is gone, from its parent, from the heap and from the
    -- index.
    pub delete_fuse_node-Deleted :
        {e : AgendaEntry}
        → IsTree s.heap
        → content_of s.heap child ≡ some e
        → children_of s.heap child ≡ []
        → Returns (λ _ s'. Deleted child e.filename_vdir s s') (delete_fuse_node child s)
    delete_fuse_node-Deleted {e} t entry leaf = elim (Option-cases (s.heap.cell child)) [
      | inl dead ↦ cc
      | inr (n, c) ↦
          let content : n.content ≡ some e = ground arith in
          let s1 = record s { entries_vdir = M.remove s.entries_vdir e.filename_vdir } in
          rw (delete_fuse_node-unindexed c content) (
            Returns-and_then _ _ (on_heap (detach_tree_node child) s1) _
              (Returns-on_heap _ (detach_tree_node child) s1
                (detach_tree_node-Linked child s.heap t.linked (ground arith)))
              λ r s' ((had, l, d), same).
                let none_left : children_of s'.heap child ≡ [] =
                  rw (d.children_left child, leaf) refl in
                let freed =
                  write-Freed child s'.heap l none_left (ground (arith, d.parent_cleared child)) in
                rw
                  (
                    on_heap-ok (free_tree (suc s'.heap.next) child) s' (
                        free_tree-leaf child s'.heap.next s'.heap
                          (ground (arith, d.nodes.live_same child)) none_left),
                    same,
                  )
                  (steps-Deleted e.filename_vdir s'.heap (write child none s'.heap) t l d freed))
    ]
