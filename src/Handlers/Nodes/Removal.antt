-- ===== src/Handlers/Nodes/Removal.antt =====
-- What `fuse_unlink` and `fuse_rmdir` do on their branches.
use ical_fs.Base.{
  ◌≡◌, refl, ◌≢◌, inl, inr, Bytes, str_eq, true, false, Option, none, some, List, [], ◌∷◌, arith,
  Option-cases, Bool-cases, is_some, ltb, length, Run, ok, fault, Returns, Returns-mono, and_then,
  ◌>>=◌, if◌then◌else◌,
}
use ical_fs.Path.{append_path}
use ical_fs.Tree.{Ptr, load, node_has_children}
use ical_fs.Tree.Links.{children_of, content_of}
use ical_fs.HashMap.{HashMap}
use ical_fs.Store.{
  AgendaEntry, Node, Mount, on_heap, get_entry, get_vdir_filepath, delete_fuse_node,
}
use ical_fs.Store.Siblings.{IsTree}
use ical_fs.Store.Deletion.{Deleted, delete_fuse_node-Deleted}
use ical_fs.Lookup.{get_node_by_path}
use ical_fs.Lookup.Stable.{Found, get_node_by_path-Found}
use ical_fs.Lookup.Gone.{lookup-Deleted}
use ical_fs.Ical.{Ical}
use ical_fs.Entry.{node_is_directory}
use ical_fs.Entry.Stored.{Stored, file_of, load-live, get_icalcomponent_from_node-Stored}
use ical_fs.Agenda.Delete.{remove_file, delete_vdir_entry}
use ical_fs.Status.{Status, done}
use ical_fs.Handlers.Nodes.{fuse_unlink, fuse_rmdir}

module _ {M : HashMap} where
  -- The mount without the file at the path.
  unfoldable pub without_file : Bytes → Mount M → Mount M
  without_file path s = record s { files = λ p. if str_eq p path then none else s.files p }

  -- The file of the entry `e` is removed, and then its node.
  abbrev pub Removed : Ptr → AgendaEntry → Mount M → Mount M → Type 0
  Removed node e s s' =
      Deleted node e.filename_vdir (without_file (append_path s.vdir e.filename_vdir) s) s'

  delete_vdir_entry-runs :
      (node : Ptr) (s : Mount M) {n : Node} {e : AgendaEntry}
      → s.heap.cell node ≡ some n
      → n.content ≡ some e
      → is_some (s.files (append_path s.vdir e.filename_vdir)) ≡ true
      → s.can_remove (append_path s.vdir e.filename_vdir) ≡ true
      → delete_vdir_entry node s
        ≡ and_then
            (delete_fuse_node node (without_file (append_path s.vdir e.filename_vdir) s))
            (λ _. ok (done 0))
  unfolding delete_vdir_entry remove_file get_vdir_filepath get_entry load without_file
  delete_vdir_entry-runs node s c content there may = ground arith

  delete_vdir_entry-Removed :
      (node : Ptr) (s : Mount M) {e : AgendaEntry}
      → IsTree s.heap
      → content_of s.heap node ≡ some e
      → children_of s.heap node ≡ []
      → is_some (s.files (append_path s.vdir e.filename_vdir)) ≡ true
      → s.can_remove (append_path s.vdir e.filename_vdir) ≡ true
      → Returns (λ r s'. (r ≡ done 0) × Removed node e s s') (delete_vdir_entry node s)
  unfolding without_file
  delete_vdir_entry-Removed node s {e} t entry leaf there may =
      elim (Option-cases (s.heap.cell node)) [
        | inl dead ↦ cc
        | inr (n, c) ↦
            let s1 = without_file (append_path s.vdir e.filename_vdir) s in
            rw (delete_vdir_entry-runs node s {e = e} c (ground arith) there may)
              (finish e (delete_fuse_node node s1) (delete_fuse_node-Deleted node s1 t entry leaf))
      ]
    where
      finish :
          (e : AgendaEntry) (r : Run (Mount M) (Unit {0}))
          → Returns (λ _ s'. Removed node e s s') r
          → Returns (λ r s'. (r ≡ done 0) × Removed node e s s') (and_then r (λ _. ok (done 0)))
      finish e (ok a s') d = (refl, d)
      finish e (fault f) d = d

-- The path leads to the stored node, which is not the root, and its file can be removed.
pub record IsRemovable {M : HashMap} (path : Bytes) (node : Ptr) (s : Mount M) (n : Node)
    (e : AgendaEntry) (text : Bytes) : Type 0 where
  pub found : Found s path node
  pub stored : Stored s node n e text
  pub root_empty : content_of s.heap s.fuse_root ≡ none
  pub may : s.can_remove (file_of s e) ≡ true

-- What is left when the removal has succeeded.
abbrev pub Unlinked :
    {M : HashMap} → Bytes → Ptr → AgendaEntry → Mount M → Status → Mount M → Type 0
Unlinked path node e s r s' =
    (r ≡ done 0) × Removed node e s s' × (get_node_by_path path s' ≡ ok none s')

pub no_children :
    ⦃I : Ical⦄ (n : Node) (c : Option I.Component) → node_is_directory n c ≡ false → n.children ≡ []
unfolding node_is_directory node_has_children
no_children n c kind = elim (Bool-cases (ltb 0 (length n.children))) [
  | inl some_child ↦ ground arith
  | inr empty ↦ length_zero n.children empty
]
  where
    length_zero : (cs : List Ptr) → ltb 0 (length cs) ≡ false → cs ≡ []
    length_zero [] e = refl
    length_zero (c ∷ cs) e = ground arith

module _ ⦃I : Ical⦄ {M : HashMap} (path : Bytes) (node : Ptr) (s : Mount M) {n : Node}
    {e : AgendaEntry} {text : Bytes} (h : IsRemovable path node s n e text) where
  pub delete_vdir_entry-Unlinked :
      n.children ≡ [] → Returns (Unlinked path node e s) (delete_vdir_entry node s)
  unfolding without_file
  delete_vdir_entry-Unlinked leaf =
      let t = h.stored in
      let below : node ≢ s.fuse_root = λ same. ground (arith, t.cell, t.content, h.root_empty) in
      Returns-mono _ _ (delete_vdir_entry node s)
        (delete_vdir_entry-Removed node s {e = e} h.found.is_tree
          (ground (arith, t.cell, t.content)) (ground (arith, t.cell)) (ground (arith, t.file))
          h.may)
        λ r s' (z, d). (
          z,
          d,
          lookup-Deleted path node e.filename_vdir (without_file (file_of s e) s) s'
              (record {
                is_tree = h.found.is_tree;
                root_live = h.found.root_live;
                short = h.found.short;
                chain = h.found.chain;
              })
              below d,
        )

  fuse_unlink-deletes :
      node_is_directory n (I.from_string text) ≡ false
      → fuse_unlink path s ≡ delete_vdir_entry node s
  unfolding fuse_unlink
  fuse_unlink-deletes kind =
      rw
        (
          get_node_by_path-Found s path node h.found,
          get_icalcomponent_from_node-Stored s node h.stored,
          and_then,
          ◌>>=◌,
          on_heap,
          load-live node s.heap h.stored.cell,
          kind,
        )
        refl

  fuse_rmdir-deletes :
      node_is_directory n (I.from_string text) ≡ true
      → n.children ≡ []
      → fuse_rmdir path s ≡ delete_vdir_entry node s
  unfolding fuse_rmdir
  fuse_rmdir-deletes kind leaf =
      rw
        (
          get_node_by_path-Found s path node h.found,
          get_icalcomponent_from_node-Stored s node h.stored,
          and_then,
          ◌>>=◌,
          on_heap,
          load-live node s.heap h.stored.cell,
          kind,
          leaf,
        )
        refl

  -- The path leads in a tree to an entry other than the root, whose file can be removed, and the
  -- entry is not a directory. Then unlinking it succeeds: its file and its node are gone and
  -- nothing else, the heap is still a tree, and the path leads nowhere.
  pub fuse_unlink-Unlinked :
      node_is_directory n (I.from_string text) ≡ false
      → Returns (Unlinked path node e s) (fuse_unlink path s)
  fuse_unlink-Unlinked kind =
      rw (fuse_unlink-deletes kind)
        (delete_vdir_entry-Unlinked (no_children n (I.from_string text) kind))

  -- The path leads in a tree to an entry other than the root, whose file can be removed, and the
  -- entry is a directory without children. Then removing it succeeds: its file and its node are
  -- gone and nothing else, the heap is still a tree, and the path leads nowhere.
  pub fuse_rmdir-Unlinked :
      node_is_directory n (I.from_string text) ≡ true
      → n.children ≡ []
      → Returns (Unlinked path node e s) (fuse_rmdir path s)
  fuse_rmdir-Unlinked kind leaf =
      rw (fuse_rmdir-deletes kind leaf) (delete_vdir_entry-Unlinked leaf)
