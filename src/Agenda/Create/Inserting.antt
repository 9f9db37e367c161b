-- ===== src/Agenda/Create/Inserting.antt =====
-- `insert_fuse_node_to_path` for a node that has just been created, below a directory.
use ical_fs.Base.{
  ◌≡◌, refl, inl, inr, Bytes, str_eq, str_eq_refl, true, false, Option, none, some, [], ◌∷◌, ◌++◌,
  arith, Option-cases, Bool-cases, ok, Returns, Returns-and_then, and_then, ◌>>=◌, ◌>>◌,
  if◌then◌else◌, ◌==◌,
}
use ical_fs.Path.{get_parent_path}
use ical_fs.Tree.{Ptr, load, add_child}
use ical_fs.Tree.Links.{live, children_of, content_of, Added}
use ical_fs.Tree.Moves.{add_child-Linked}
use ical_fs.HashMap.{HashMap, listed}
use ical_fs.Store.{AgendaEntry, Node, Mount, on_heap, is_root_node}
use ical_fs.Store.Names.{filename_of, names_of}
use ical_fs.Store.Siblings.{
  IsTree, UniqueNames, names_of-append, names_of-SameNodes, DistinctNames-append,
}
use ical_fs.Store.Children.{Returns-on_heap}
use ical_fs.Lookup.{get_node_by_path}
use ical_fs.Ical.{Ical}
use ical_fs.Ical.Properties.{set_parent_child_relationship_to_component}
use ical_fs.Entry.{prepared, node_is_directory, get_icalcomponent_from_node}
use ical_fs.Entry.Stored.{
  Stored, file_of, with_file, load-live, get_icalcomponent_from_node-Stored, write_ical_file-node,
}
use ical_fs.Agenda.Create.{insert_fuse_node_to_path, write_below, write_parent_child_components}
use ical_fs.Status.{done}

-- What a directory is that an entry can be created in: the root, which has no component, or a node
-- with an entry whose file can be read.
pub data IsReadable ⦃I : Ical⦄ {M : HashMap} (s : Mount M) (p : Ptr) (m : Node)
    : Option I.Component → Type 0 where
  at_root : s.heap.cell p ≡ some m → m.content ≡ none → IsReadable s p m none
  at_entry :
      (d : AgendaEntry) (text : Bytes) → Stored s p m d text → IsReadable s p m (I.from_string text)

module _ ⦃I : Ical⦄ where
  -- The component that is written below a directory with the component.
  pub related_component : Option I.Component → I.Component → I.Component
  related_component none c = c
  related_component (some parent_ics) c = set_parent_child_relationship_to_component parent_ics c

-- `node` with the entry has become the last child of `parent`, and its file has the text.
pub record Inserted {M : HashMap} (parent node : Ptr) (entry : AgendaEntry) (text : Bytes)
    (s s' : Mount M) : Type 0 where
  pub is_tree : IsTree s'.heap
  pub live_same : (x : Ptr) → live s'.heap x ≡ live s.heap x
  pub content_same : (x : Ptr) → content_of s'.heap x ≡ content_of s.heap x
  pub children_inserted :
      (x : Ptr)
      → children_of s'.heap x
        ≡ (if x == parent then children_of s.heap x ++ node ∷ [] else children_of s.heap x)
  pub written : s'.files (file_of s entry) ≡ some text
  pub others : (path : Bytes) → str_eq path (file_of s entry) ≡ false → s'.files path ≡ s.files path
  pub rest_same : s' ≡ record s { heap = s'.heap; files = s'.files }

module _ ⦃I : Ical⦄ {M : HashMap} (s : Mount M) (parent : Ptr) {m : Node} where
  pub IsReadable-cell :
      {parent_ics : Option I.Component}
      → IsReadable s parent m parent_ics
      → s.heap.cell parent ≡ some m
  IsReadable-cell (at_root here top) = here
  IsReadable-cell (at_entry d text t) = t.cell

  get_icalcomponent_from_node-IsReadable :
      {parent_ics : Option I.Component}
      → IsReadable s parent m parent_ics
      → get_icalcomponent_from_node parent s ≡ ok parent_ics s
  unfolding get_icalcomponent_from_node is_root_node load
  get_icalcomponent_from_node-IsReadable (at_root here top) = ground arith
  get_icalcomponent_from_node-IsReadable (at_entry d text t) =
      get_icalcomponent_from_node-Stored s parent t

module _ ⦃I : Ical⦄ {M : HashMap} (s : Mount M) (node : Ptr) (parent_ics : Option I.Component)
    (c : I.Component) where
  write_below-written :
      {k : Node} {entry : AgendaEntry}
      → s.heap.cell node ≡ some k
      → k.content ≡ some entry
      → s.can_write (file_of s entry) ≡ true
      → write_below parent_ics node c s
        ≡ ok (done 0) (
            with_file
              (file_of s entry)
              (I.as_ical_string (prepared s.clock (related_component parent_ics c)))
              s)
  unfolding write_below write_parent_child_components related_component
  write_below-written here content may = elim (Option-cases parent_ics) [
    | inl top ↦
        rw
          (top, write_below, ◌>>◌, ◌>>=◌, and_then, write_ical_file-node s node c here content, may)
          refl
    | inr (p, below) ↦
        rw
          (
            below,
            write_below,
            write_parent_child_components,
            write_ical_file-node s node (set_parent_child_relationship_to_component p c) here
                content,
            may,
          )
          refl
  ]

module _ ⦃I : Ical⦄ {M : HashMap} (path parent_path : Bytes) (parent node : Ptr) (s : Mount M)
    {m k : Node} {entry : AgendaEntry} {parent_ics : Option I.Component} (c : I.Component) where
  insert_fuse_node_to_path-adds :
      get_parent_path path ≡ some parent_path
      → get_node_by_path parent_path s ≡ ok (some parent) s
      → IsReadable s parent m parent_ics
      → node_is_directory m parent_ics ≡ true
      → s.heap.cell node ≡ some k
      → k.content ≡ some entry
      → s.can_write (file_of s entry) ≡ true
      → insert_fuse_node_to_path path node c s
        ≡ and_then
            (on_heap (add_child parent node) (
              with_file
                (file_of s entry)
                (I.as_ical_string (prepared s.clock (related_component parent_ics c)))
                s))
            (λ _. ok (done 0))
  unfolding insert_fuse_node_to_path
  insert_fuse_node_to_path-adds up found readable directory here content may =
      rw
        (
          up,
          insert_fuse_node_to_path,
          and_then,
          ◌>>=◌,
          found,
          get_icalcomponent_from_node-IsReadable s parent readable,
          on_heap,
          load-live parent s.heap (IsReadable-cell s parent readable),
          directory,
          write_below-written s node parent_ics c here content may,
        )
        refl

  -- A new node is inserted below a directory in which its name is free: the run succeeds and leaves
  -- a tree, the node is the last child there, and its file has its component.
  pub insert_fuse_node_to_path-Inserted :
      IsTree s.heap
      → get_parent_path path ≡ some parent_path
      → get_node_by_path parent_path s ≡ ok (some parent) s
      → IsReadable s parent m parent_ics
      → node_is_directory m parent_ics ≡ true
      → s.heap.cell node ≡ some k
      → k.content ≡ some entry
      → k.parent ≡ none
      → listed entry.filename (names_of s.heap (children_of s.heap parent)) ≡ false
      → s.can_write (file_of s entry) ≡ true
      → Returns
          (λ r s'.
            (r ≡ done 0)
            × Inserted parent node entry
                (I.as_ical_string (prepared s.clock (related_component parent_ics c)))
                s
                s')
          (insert_fuse_node_to_path path node c s)
  insert_fuse_node_to_path-Inserted t up found readable directory here content free_node free may =
      let text = I.as_ical_string (prepared s.clock (related_component parent_ics c)) in
      let s1 = with_file (file_of s entry) text s in
      rw (insert_fuse_node_to_path-adds up found readable directory here content may) (
        Returns-and_then _ _ (on_heap (add_child parent node) s1) _
          (Returns-on_heap _ (add_child parent node) s1 (
            add_child-Linked parent node s.heap t.linked
              (ground (arith, IsReadable-cell s parent readable)) (ground arith) (ground arith)))
          λ z s' ((zero_result, l, a), same). (
            refl,
            record {
              is_tree = record { linked = l; unique = unique_at s' t a free (ground arith) };
              live_same = a.nodes.live_same;
              content_same = a.nodes.content_same;
              children_inserted = a.children_added;
              written = rw same (ground (arith, str_eq_refl (file_of s entry)));
              others = λ p other. rw same (ground arith);
              rest_same = rw same refl;
            },
          ))
    where
      unique_at :
          (s' : Mount M)
          → IsTree s.heap
          → Added parent node s.heap s'.heap
          → listed entry.filename (names_of s.heap (children_of s.heap parent)) ≡ false
          → filename_of s.heap node ≡ entry.filename
          → UniqueNames s'.heap
      unique_at s' t a free named x =
          let same = names_of-SameNodes s.heap s'.heap (children_of s'.heap x) a.nodes in
          elim (Bool-cases (x == parent)) [
            | inl y ↦
                rw
                  (
                    same,
                    a.children_added x,
                    y,
                    names_of-append s.heap (children_of s.heap x) node,
                    named,
                  )
                  (DistinctNames-append entry.filename _ (t.unique x) (ground arith))
            | inr away ↦ rw (same, a.children_added x, away) (t.unique x)
          ]
