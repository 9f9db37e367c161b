-- ===== src/Handlers/Nodes/Refining.antt =====
-- The handlers that make and remove nodes are the operations of the abstract file system.
use ical_fs.Base.{
  ◌≡◌, ap, ◌∙◌, ◌≢◌, Bytes, true, false, Option, none, some, List, [], ◌∷◌, ◌++◌, arith, Returns,
  Returns-mono, ==_refl,
}
use ical_fs.Path.{append_path, split_path}
use ical_fs.Path.Names.{directory}
use ical_fs.Path.Segments.{split_path_below}
use ical_fs.Tree.{Ptr}
use ical_fs.Tree.Links.{live, without, children_of}
use ical_fs.Tree.Moves.{has-append, has-without}
use ical_fs.HashMap.{HashMap}
use ical_fs.Store.{AgendaEntry, Node, Mount}
use ical_fs.Store.Deletion.{Deleted}
use ical_fs.Lookup.Spec.{Namespace, link, unlink, Implements, get_node_by_path-Implements}
use ical_fs.Lookup.Edits.{
  Differs, AgreesBut-Differs, AgreesBut-unlink, AgreesBut-dead, AgreesBut-unlinked,
  AgreesBut-linked, Differs-top, Chain-live, Chain-Differs,
}
use ical_fs.Ical.{Ical}
use ical_fs.Entry.{node_is_directory}
use ical_fs.Entry.Stored.{file_of}
use ical_fs.Agenda.Create.{EntryType, entry_file, entry_directory}
use ical_fs.Status.{Status, done}
use ical_fs.Handlers.Nodes.{fuse_create, fuse_mkdir, fuse_unlink, fuse_rmdir}
use ical_fs.Handlers.Nodes.Created.{IsCreatable, Created, Makes}
use ical_fs.Handlers.Nodes.Creating.{fuse_create-Created, fuse_mkdir-Created}
use ical_fs.Handlers.Nodes.Removal.{
  IsRemovable, Unlinked, without_file, no_children, fuse_unlink-Unlinked, fuse_rmdir-Unlinked,
}

module _ {M : HashMap} (s s' : Mount M) (N : Namespace) (node : Ptr) (h : Implements s N) where
  Deleted-Implements :
      (path file : Bytes) (names : List Bytes)
      → children_of s.heap node ≡ []
      → s.fuse_root ≢ node
      → N names ≡ some node
      → Deleted node file (without_file path s) s'
      → Implements s' (unlink names N)
  unfolding without_file
  Deleted-Implements path file names leaf below there d =
      let t = h.is_tree.linked in
      let root : s'.fuse_root ≡ s.fuse_root = ap (λ (u : Mount M). u.fuse_root) d.rest_same in
      let differs : Differs node s.heap s'.heap = record {
        leaf = leaf;
        leaf' = d.children_left node ∙ ap (without node) leaf;
        places = λ x c ne.
            ground
              (arith, d.children_left x, has-without c node (children_of s.heap x) (t.distinct x));
        names = d.names_same;
      } in
      let but = AgreesBut-Differs differs (AgreesBut-unlink s N names node h there) in
      record {
        is_tree = d.is_tree;
        root_live = rw root (d.live_same s.fuse_root below ∙ h.root_live);
        root_top = rw root (Differs-top differs t d.is_tree.linked below h.root_top);
        agrees =
            AgreesBut-unlinked s' (unlink names N) node d.is_tree (rw root below) (rw root but) λ x.
              ground (
                arith,
                d.children_left x,
                has-without node node (children_of s.heap x) (t.distinct x),
                ==_refl node,
              );
      }

  Created-Implements :
      (name text : Bytes) (parent : Ptr) (names : List Bytes)
      → Created name parent text s s'
      → live s.heap s.heap.next ≡ false
      → N names ≡ some parent
      → N (names ++ name ∷ []) ≡ none
      → Implements s' (link (names ++ name ∷ []) s.heap.next N)
  Created-Implements name text parent names c dead there free =
      let t = h.is_tree.linked in
      let root : s'.fuse_root ≡ s.fuse_root = ap (λ (u : Mount M). u.fuse_root) c.rest_same in
      let below : s.fuse_root ≢ s.heap.next = λ e. ground (arith, h.root_live) in
      let apart : parent ≢ s.heap.next = λ e. ground (
        arith,
        Chain-live s.heap t s.fuse_root names parent h.root_live ((h.agrees names parent).0 there),
      ) in
      let differs : Differs s.heap.next s.heap s'.heap = record {
        leaf = ground arith;
        leaf' = ground (arith, c.children_created s.heap.next);
        places = λ x k ne.
            ground
              (arith, c.children_created x, has-append k (children_of s.heap x) (s.heap.next ∷ []));
        names = λ k ne. ground (arith, c.content_same k ne);
      } in
      let but = AgreesBut-Differs differs (AgreesBut-dead s N s.heap.next h dead) in
      record {
        is_tree = c.is_tree;
        root_live = rw root (c.live_same s.fuse_root below ∙ h.root_live);
        root_top = rw root (Differs-top differs t c.is_tree.linked below h.root_top);
        agrees =
            AgreesBut-linked s' N s.heap.next c.is_tree (rw root below) (rw root but) parent names
              name (rw root (Differs-top differs t c.is_tree.linked below h.root_top))
              (rw root (
                Chain-Differs s.heap s'.heap s.fuse_root names parent differs apart
                  ((h.agrees names parent).0 there)))
              (rw
                (
                  c.children_created parent,
                  ==_refl parent,
                  has-append s.heap.next (children_of s.heap parent) (s.heap.next ∷ []),
                )
                (ground (arith, ==_refl s.heap.next)))
              (ground (arith, c.content_set)) free;
      }

module _ ⦃I : Ical⦄ {M : HashMap} (s : Mount M) (N : Namespace) (r : Implements s N) where
  module _ (p name : Bytes) (parent : Ptr) {m : Node} {parent_ics : Option I.Component} where
    created_links :
        (etype : EntryType) (st : Status) (s' : Mount M)
        → IsCreatable etype p name parent s m parent_ics
        → Makes etype p name parent parent_ics s st s'
        → (st ≡ done 0) × Implements s' (link (split_path (append_path p name)) s.heap.next N)
    created_links etype st s' h (z, c, found) =
        let split = split_path_below p name h.is_name in
        let free : N (split_path (append_path p name)) ≡ none =
          cc (get_node_by_path-Implements s N r (append_path p name) h.short, h.free) in
        (
          z,
          rw split (
              Created-Implements s s' N s.heap.next r name _ parent (split_path (directory p)) c
                (r.is_tree.linked.unused s.heap.next (omega arith))
                ((r.agrees (split_path (directory p)) parent).1 h.parent_found.chain)
                (rw split at free)),
        )

    -- Let a mount implement a table of names, and a path be a name below a directory whose component
    -- can be read, lead nowhere, be short enough, and be made an entry that keeps its uid and whose
    -- file can be written. Creating it succeeds, and the mount then implements the table with the
    -- new node at that path.
    pub fuse_create-Implements :
        IsCreatable entry_file p name parent s m parent_ics
        → Returns
            (λ st s'.
              (st ≡ done 0) × Implements s' (link (split_path (append_path p name)) s.heap.next N))
            (fuse_create (append_path p name) s)
    fuse_create-Implements h =
        Returns-mono _ _ (fuse_create (append_path p name) s)
          (fuse_create-Created p name parent s h) λ st s' d. created_links entry_file st s' h d

    pub fuse_mkdir-Implements :
        IsCreatable entry_directory p name parent s m parent_ics
        → Returns
            (λ st s'.
              (st ≡ done 0) × Implements s' (link (split_path (append_path p name)) s.heap.next N))
            (fuse_mkdir (append_path p name) s)
    fuse_mkdir-Implements h =
        Returns-mono _ _ (fuse_mkdir (append_path p name) s) (fuse_mkdir-Created p name parent s h)
          λ st s' d. created_links entry_directory st s' h d

  module _ (path : Bytes) (node : Ptr) {n : Node} {e : AgendaEntry} {text : Bytes}
      (h : IsRemovable path node s n e text) where
    pub removed_unlinks :
        (st : Status) (s' : Mount M)
        → n.children ≡ []
        → Unlinked path node e s st s'
        → (st ≡ done 0) × Implements s' (unlink (split_path path) N)
    removed_unlinks st s' leaf (z, d, gone) =
        let t = h.stored in
        let below : s.fuse_root ≢ node = λ same. ground (arith, t.cell, t.content, h.root_empty) in
        (
          z,
          Deleted-Implements s s' N node r (file_of s e) e.filename_vdir (split_path path)
              (ground (arith, t.cell)) below ((r.agrees (split_path path) node).1 h.found.chain) d,
        )

    -- Let a mount implement a table of names, and a path lead to an entry other than the root that
    -- is not a directory and whose file can be removed. Unlinking it succeeds, and the mount then
    -- implements the table without that path.
    pub fuse_unlink-Implements :
        node_is_directory n (I.from_string text) ≡ false
        → Returns
            (λ st s'. (st ≡ done 0) × Implements s' (unlink (split_path path) N))
            (fuse_unlink path s)
    fuse_unlink-Implements kind =
        Returns-mono _ _ (fuse_unlink path s) (fuse_unlink-Unlinked path node s h kind)
          λ st s' d. removed_unlinks st s' (no_children n (I.from_string text) kind) d

    pub fuse_rmdir-Implements :
        node_is_directory n (I.from_string text) ≡ true
        → n.children ≡ []
        → Returns
            (λ st s'. (st ≡ done 0) × Implements s' (unlink (split_path path) N))
            (fuse_rmdir path s)
    fuse_rmdir-Implements kind leaf =
        Returns-mono _ _ (fuse_rmdir path s) (fuse_rmdir-Unlinked path node s h kind leaf)
          λ st s' d. removed_unlinks st s' leaf d
