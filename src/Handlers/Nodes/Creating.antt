-- ===== src/Handlers/Nodes/Creating.antt =====
-- `fuse_create` and `fuse_mkdir` at a path that leads nowhere yet, below a directory.
use ical_fs.Base.{
  is_some, suc, sym, ◌≡◌, refl, ap, ◌∙◌, ◌≢◌, Bytes, codes, starts_with_str, true, false, Option,
  [], ◌∷◌, arith, Returns, Returns-mono, and_then, ◌>>=◌, ==_refl,
}
use ical_fs.Path.{append_path, split_path, path_is_hidden}
use ical_fs.Path.Names.{directory, append_path_parts}
use ical_fs.Path.Segments.{split_path_below}
use ical_fs.Tree.{Ptr}
use ical_fs.Tree.Links.{children_of}
use ical_fs.Tree.Moves.{has-append}
use ical_fs.HashMap.{HashMap, listed}
use ical_fs.Store.{Node, Mount}
use ical_fs.Store.Names.{names_of}
use ical_fs.Store.Creation.{grown-Fresh, cell_of-grown, create_fuse_node-grown}
use ical_fs.Lookup.Stable.{Found, get_node_by_path-Found}
use ical_fs.Lookup.Namespace.{Chain-snoc, free_name}
use ical_fs.Ical.{Ical}
use ical_fs.Agenda.Create.{
  EntryType, entry_directory, entry_file, insert_fuse_node_to_path, create_entry_from_fuse,
}
use ical_fs.Agenda.Create.Inserting.{Inserted, insert_fuse_node_to_path-Inserted}
use ical_fs.Handlers.Nodes.{create_as, fuse_create, fuse_mkdir}
use ical_fs.Handlers.Nodes.Created.{
  created, next_uid, next_entry, begun, IsCreatable, Created, Makes, Chain-Fresh, Chain-Inserted,
  new_component-created, IsReadable-begun,
}

visible : (path : Bytes) → starts_with_str path (codes "/") ≡ true → path_is_hidden path ≡ false
unfolding starts_with_str path_is_hidden
visible [] h = refl
visible (c ∷ path) h = ground arith

module _ ⦃I : Ical⦄ {M : HashMap} (etype : EntryType) (p name : Bytes) (parent : Ptr) (s : Mount M)
    {m : Node} {parent_ics : Option I.Component}
    (h : IsCreatable etype p name parent s m parent_ics) where
  create_as-inserts :
      create_as etype (append_path p name) s
      ≡ insert_fuse_node_to_path
          (append_path p name)
          s.heap.next
          (created etype (next_uid s) s.clock name)
          (begun s name)
  unfolding create_as create_entry_from_fuse
  create_as-inserts =
      let (last, up) = append_path_parts p name h.is_name.1 in
      rw
        (
          visible (append_path p name) h.rooted,
          h.free,
          and_then,
          ◌>>=◌,
          create_entry_from_fuse,
          h.rooted,
          last,
          new_component-created s name etype,
          h.uid,
          create_fuse_node-grown,
          last,
        )
        refl

  root_apart : s.fuse_root ≢ s.heap.next
  root_apart e = ground (
    arith,
    h.parent_found.root_live,
    h.parent_found.is_tree.linked.unused s.heap.next (omega arith),
  )

  begun-Found : Found (begun s name) (directory p) parent
  begun-Found =
      let t = h.parent_found.is_tree in
      let f = grown-Fresh (next_entry name s) s.heap t in
      record {
        is_tree = f.is_tree;
        root_live = ground (arith, f.cell_same s.fuse_root root_apart, h.parent_found.root_live);
        short = h.parent_found.short;
        chain =
            Chain-Fresh s (next_entry name s) s.fuse_root (split_path (directory p)) parent t
              h.parent_found.chain;
      }

  free_begun :
      listed name (names_of (begun s name).heap (children_of (begun s name).heap parent)) ≡ false
  free_begun =
      let t = h.parent_found.is_tree in
      let f = grown-Fresh (next_entry name s) s.heap t in
      rw
        (
          f.children_same parent,
          f.names_same (children_of s.heap parent)
              (ground (arith, t.linked.links parent s.heap.next, f.was_dead)),
        )
        (free_name s (append_path p name) parent (split_path (directory p)) name t
          h.parent_found.root_live h.parent_found.chain (split_path_below p name h.is_name) h.short
          h.free)

  module _ (s' : Mount M) {text : Bytes}
      (i : Inserted parent s.heap.next (next_entry name s) text (begun s name) s') where
    Inserted-Created : Created name parent text s s'
    Inserted-Created =
        let f = grown-Fresh (next_entry name s) s.heap h.parent_found.is_tree in
        record {
          is_tree = i.is_tree;
          content_set = i.content_same s.heap.next ∙ f.content_set;
          content_same = λ x ne. i.content_same x ∙ f.content_same x ne;
          live_same = λ x ne. i.live_same x ∙ ap is_some (f.cell_same x ne);
          children_created = λ x. ground (arith, i.children_inserted x, f.children_same x);
          index = ap (λ (u : Mount M). u.entries_vdir) i.rest_same;
          written = i.written;
          others = i.others;
          rest_same =
              i.rest_same
              ∙ ap
                  (λ v. record s {
                    uuid_count = suc s.uuid_count;
                    heap = s'.heap;
                    entries_vdir = v;
                    files = s'.files;
                  })
                  (sym (ap (λ (u : Mount M). u.entries_vdir) i.rest_same));
        }

    Inserted-Found : Found s' (append_path p name) s.heap.next
    Inserted-Found =
        let d = begun-Found in
        let c = Inserted-Created in
        let root : s'.fuse_root ≡ s.fuse_root = ap (λ (u : Mount M). u.fuse_root) i.rest_same in
        record {
          is_tree = i.is_tree;
          root_live = rw root (i.live_same s.fuse_root ∙ d.root_live);
          short = h.short;
          chain =
              rw (root, split_path_below p name h.is_name)
                (Chain-snoc s'.heap s.fuse_root (split_path (directory p)) name parent s.heap.next
                  (Chain-Inserted (begun s name) s' parent s.heap.next s.fuse_root
                    (split_path (directory p)) parent i d.chain)
                  (rw
                    (
                      i.children_inserted parent,
                      ==_refl parent,
                      has-append s.heap.next (children_of (begun s name).heap parent)
                          (s.heap.next ∷ []),
                    )
                    (ground (arith, ==_refl s.heap.next)))
                  (ground (arith, c.content_set)));
        }

  create_as-Created :
      Returns (Makes etype p name parent parent_ics s) (create_as etype (append_path p name) s)
  create_as-Created =
      let e = next_entry name s in
      let d = begun-Found in
      let (last, up) = append_path_parts p name h.is_name.1 in
      rw create_as-inserts (
        Returns-mono _ _
          (insert_fuse_node_to_path (append_path p name) s.heap.next
            (created etype (next_uid s) s.clock name) (begun s name))
          (insert_fuse_node_to_path-Inserted (append_path p name) (directory p) parent s.heap.next
            (begun s name) (created etype (next_uid s) s.clock name) d.is_tree up
            (get_node_by_path-Found (begun s name) (directory p) parent d)
            (IsReadable-begun s name parent h.parent_found.is_tree h.readable) h.directory_test
            (cell_of-grown e s.heap) refl refl free_begun h.may)
          λ r s' (z, i). (
            z,
            Inserted-Created s' i,
            get_node_by_path-Found s' (append_path p name) s.heap.next (Inserted-Found s' i),
          ))

module _ ⦃I : Ical⦄ {M : HashMap} (p name : Bytes) (parent : Ptr) (s : Mount M) {m : Node}
    {parent_ics : Option I.Component} where
  -- Let a path be a name, not starting with a dot, below a directory of a tree, either the root or one
  -- whose component can be read and has a uid; let it lead nowhere, have at most 255 segments, and be
  -- made a file that keeps its uid and can be written. The handler succeeds: the heap is linked,
  -- siblings have different names, and a new node is the last child of the directory, to which the path leads; it is in the index; its file
  -- has the component of a new entry, whose inner component, if it has one, is related to a directory
  -- other than the root; and all else is as before.
  pub fuse_create-Created :
      IsCreatable entry_file p name parent s m parent_ics
      → Returns (Makes entry_file p name parent parent_ics s) (fuse_create (append_path p name) s)
  unfolding fuse_create
  fuse_create-Created h = create_as-Created entry_file p name parent s h

  -- Let a path be a name, not starting with a dot, below a directory of a tree, either the root or one
  -- whose component can be read and has a uid; let it lead nowhere, have at most 255 segments, and be
  -- made a directory that keeps its uid and whose file can be written. The handler succeeds: the heap
  -- is linked, siblings have different names, and a new node is the last child there, to which the path leads; it is in the index; its
  -- file has the component of a new directory, whose inner component, if it has one, is related to a
  -- parent other than the root; and all else is as before.
  pub fuse_mkdir-Created :
      IsCreatable entry_directory p name parent s m parent_ics
      → Returns
          (Makes entry_directory p name parent parent_ics s)
          (fuse_mkdir (append_path p name) s)
  unfolding fuse_mkdir
  fuse_mkdir-Created h = create_as-Created entry_directory p name parent s h
