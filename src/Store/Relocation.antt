-- ===== src/Store/Relocation.antt =====
-- `move_fuse_node`: a node leaves its parent and takes its place below another.
use ical_fs.Base.{
  ◌≡◌, ap, ◌∙◌, ◌≢◌, true, false, some, [], ◌∷◌, ◌++◌, arith, ◌==◌, Returns, if◌then◌else◌,
  Returns-and_then, Returns-mono,
}
use ical_fs.Tree.{Ptr, Heap, detach_tree_node}
use ical_fs.Tree.Links.{without, live, children_of, parent_of, content_of, Detached}
use ical_fs.Tree.Moves.{Linked, detach_tree_node-Linked}
use ical_fs.HashMap.{HashMap, listed, DistinctNames}
use ical_fs.Store.{AgendaEntry, Mount, on_heap, add_fuse_child, move_fuse_node}
use ical_fs.Store.Names.{filename_of, file_in, vdir_name_of, names_of}
use ical_fs.Store.Siblings.{IsTree, names_of-SameNodes, DistinctNames-without}
use ical_fs.Store.Children.{Returns-on_heap, Joined, add_fuse_child-Joined}

-- Siblings have different names, but for the one node.
abbrev pub UniqueBut : Ptr → Heap AgendaEntry → Type 0
UniqueBut child h = (p : Ptr) → DistinctNames (names_of h (without child (children_of h p)))

pub IsTree-UniqueBut : (child : Ptr) (h : Heap AgendaEntry) → IsTree h → UniqueBut child h
IsTree-UniqueBut child h t p = DistinctNames-without h child _ (t.unique p)

-- `child` has left its place: it is the last child of `parent` and a child of no other node, with a
-- name that none of its siblings has; it kept its name if that was free. Names of other nodes, and
-- all but the heap of the mount, are as before.
pub record Relocated {M : HashMap} (parent child : Ptr) (s s' : Mount M) : Type 0 where
  pub is_tree : IsTree s'.heap
  pub live_same : (x : Ptr) → live s'.heap x ≡ live s.heap x
  pub children_relocated :
      (x : Ptr)
      → children_of s'.heap x ≡ (
          if x == parent
          then without child (children_of s.heap x) ++ child ∷ []
          else without child (children_of s.heap x))
  pub parent_relocated :
      (x : Ptr) → parent_of s'.heap x ≡ (if x == child then some parent else parent_of s.heap x)
  pub fresh_name :
      listed
        (filename_of s'.heap child)
        (names_of s.heap (without child (children_of s.heap parent)))
      ≡ false
  pub kept_name :
      listed
          (filename_of s.heap child)
          (names_of s.heap (without child (children_of s.heap parent)))
        ≡ false
      → filename_of s'.heap child ≡ filename_of s.heap child
  pub names_same : (x : Ptr) → x ≢ child → filename_of s'.heap x ≡ filename_of s.heap x
  pub files_same : (x : Ptr) → vdir_name_of s'.heap x ≡ vdir_name_of s.heap x
  pub rest_same : s' ≡ record s { heap = s'.heap }

module _ {M : HashMap} (parent child : Ptr) (s : Mount M) where
  Detached-IsTree :
      (h : Heap AgendaEntry)
      → UniqueBut child s.heap
      → Linked h
      → Detached child s.heap h
      → IsTree h
  Detached-IsTree h u l d = record {
    linked = l;
    unique = λ p. rw (d.children_left p, names_of-SameNodes s.heap h _ d.nodes) (u p);
  }

  steps-Relocated :
      (h : Heap AgendaEntry) (s' : Mount M)
      → Detached child s.heap h
      → Joined parent child (record s { heap = h }) s'
      → Relocated parent child s s'
  steps-Relocated h s' d j =
      let names = names_of-SameNodes s.heap h (without child (children_of s.heap parent)) d.nodes in
      record {
        is_tree = j.is_tree;
        live_same = λ x. j.live_same x ∙ d.nodes.live_same x;
        children_relocated = λ x. ground (arith, j.children_joined x, d.children_left x);
        parent_relocated = λ x. ground (arith, j.parent_joined x, d.parent_cleared x);
        fresh_name = ground (arith, j.fresh_name, names, d.children_left parent);
        kept_name = λ u.
            ground (arith, j.kept_name, names, d.children_left parent, d.nodes.content_same child);
        names_same = λ x ne. ground (arith, j.names_same x ne, d.nodes.content_same x);
        files_same = λ x. j.files_same x ∙ ap file_in (d.nodes.content_same x);
        rest_same = j.rest_same;
      }

  -- In a linked heap in which siblings have different names, but perhaps for the node itself, a
  -- node with an entry is moved below a live node, wherever it stood and whatever its name: the
  -- run has no fault, the heap is linked with different names of siblings, and the node is the last
  -- child there, under a name that
  -- no sibling has, its own if that was free; all else is as before.
  pub move_fuse_node-Relocated :
      {e : AgendaEntry}
      → Linked s.heap
      → UniqueBut child s.heap
      → live s.heap parent ≡ true
      → content_of s.heap child ≡ some e
      → Returns (λ r s'. (r ≡ 0) × Relocated parent child s s') (move_fuse_node parent child s)
  unfolding move_fuse_node
  move_fuse_node-Relocated {e} l u lp entry =
      Returns-and_then _ _ (on_heap (detach_tree_node child) s) _
        (Returns-on_heap _ (detach_tree_node child) s
          (detach_tree_node-Linked child s.heap l (ground arith)))
        λ r s' ((had, l', d), same).
          Returns-mono _ _ (add_fuse_child parent child s')
            (add_fuse_child-Joined parent child s' (Detached-IsTree s'.heap u l' d)
              (d.nodes.live_same parent ∙ lp) (d.nodes.content_same child ∙ entry)
              (ground (arith, d.parent_cleared child)))
            λ z s'' (zero_result, j). (zero_result, steps-Relocated s'.heap s'' d (rw same at j))
