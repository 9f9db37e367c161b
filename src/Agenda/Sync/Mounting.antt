-- ===== src/Agenda/Sync/Mounting.antt =====
-- `load_root_node_tree` as a whole.
use ical_fs.Base.{
  ◌≡◌, refl, sym, ap, ◌∙◌, inl, inr, Bytes, true, Option, none, some, List, arith, Lacks, All,
  Option-cases, Bool-cases, is_some, each, and_then, [], ◌∷◌, Returns, Returns-mono,
  Returns-and_then,
}
use ical_fs.Tree.{Ptr, create_tree_node}
use ical_fs.Tree.Links.{content_of, parent_of}
use ical_fs.HashMap.{HashMap, IsLawful, listed, DistinctNames}
use ical_fs.Store.{AgendaEntry, Node, Mount}
use ical_fs.Store.Names.{file_in, vdir_name_of}
use ical_fs.Lookup.Spec.{Implements, namespace_of, namespace_of-Implements}
use ical_fs.Ical.{Ical}
use ical_fs.Agenda.Sync.{
  DirEntry, is_ics, ics_names, load_file, load_entry, place_entry, load_root_node_tree,
}
use ical_fs.Agenda.Sync.Filtering.{IsIcsFile, listed-ics_names}
use ical_fs.Agenda.Sync.Reading.{read_entry, read_entry-filename_vdir, read_entry-component}
use ical_fs.Agenda.Sync.Loading.{Loaded, each-load_file-Loaded}
use ical_fs.Agenda.Sync.Rooted.{
  Empty, rooted, rooted-IsTree, rooted-IsIndexed, rooted-blank, rooted_live, rooted-unlisted,
  read_entry-rooted,
}
use ical_fs.Agenda.Sync.Marking.{KeepsParent}
use ical_fs.Agenda.Sync.Ready.{parsed, uid_in, component_in, named_parent_of, place_for, Ready}
use ical_fs.Agenda.Sync.Settling.{Settled, Waiting, each-place_entry-Settled}

module _ ⦃I : Ical⦄ {M : HashMap} (s : Mount M) (names : List Bytes) (none_live : Empty s)
    (s1 : Mount M) (d : Loaded names (rooted s) s1) where
  root_same : s1.fuse_root ≡ (rooted s).fuse_root
  root_same = ap (λ (u : Mount M). u.fuse_root) d.rest_same

  root_cell : s1.heap.cell s1.fuse_root ≡ (rooted s).heap.cell (rooted s).fuse_root
  root_cell = ap s1.heap.cell root_same ∙ d.old (rooted s).fuse_root (rooted_live s)

  -- What has been loaded was read.
  loaded_read :
      (p : Ptr) (e : AgendaEntry)
      → content_of s1.heap p ≡ some e
      → read_entry s e.filename_vdir ≡ some e
  unfolding rooted
  loaded_read p e c = elim (d.read p e c) [
    | inl before ↦ cc ((rooted-blank s none_live p).0)
    | inr read ↦ sym (read_entry-rooted s e.filename_vdir) ∙ read
  ]

  component_kept : (name : Bytes) → component_in s1 (some name) ≡ component_in s (some name)
  unfolding rooted
  component_kept name = ap (λ (u : Mount M). component_in u (some name)) d.rest_same

  Loaded-Ready : Ready s1
  Loaded-Ready = record {
    is_tree = d.is_tree;
    is_indexed = d.is_indexed;
    root_live = ap is_some root_cell ∙ rooted_live s;
    root_top =
        ap (λ (o : Option Node). elim o [ none ↦ none | some n ↦ n.parent ]) root_cell
        ∙ (rooted-blank s none_live (rooted s).fuse_root).1;
    root_empty =
        ap (λ (o : Option Node). elim o [ none ↦ none | some n ↦ n.content ]) root_cell
        ∙ (rooted-blank s none_live (rooted s).fuse_root).0;
    readable = λ p e c.
        let (text, k, there, read) = read_entry-component s e.filename_vdir e (loaded_read p e c) in
        (
          k,
          ap (component_in s1) (ap file_in c)
              ∙ (component_kept e.filename_vdir ∙ (ap parsed there ∙ read)),
        );
  }

  Loaded-Waiting : IsLawful M → Waiting (M.get_keys s1.entries_vdir) s1
  Loaded-Waiting L name m = elim (Option-cases (M.get s1.entries_vdir name)) [
    | inl missing ↦ absurd (ground (arith, L.listed-get_keys s1.entries_vdir name))
    | inr (child, found) ↦ (child, found, d.parent_same child ∙ (rooted-blank s none_live child).1)
  ]

-- The mount after the start, for the files with the property: the heap is linked, siblings have different names, the root has no
-- entry, and the index is exact. Each of these files that can be read as an entry has a node, whose
-- parent is the one that the component of the file says: the root, if it names none, the node of the
-- file "<uid>.ics" of the parent that it names, if that has one, or else no node at all. So a file whose parent is
-- missing has a node that no path leads to, and so have files that name each other. No other file is
-- in the index.
pub record Mounted ⦃I : Ical⦄ {M : HashMap} (P : Bytes → Type 0) (s s' : Mount M) : Type 0 where
  pub ready : Ready s'
  pub implements : Implements s' (namespace_of s' ready.is_tree ready.root_live)
  pub mounted :
      (name : Bytes) (e : AgendaEntry)
      → P name
      → read_entry s name ≡ some e
      → (p : Ptr) × (M.get s'.entries_vdir name ≡ some p)
        × (vdir_name_of s'.heap p ≡ some name)
        × (parent_of s'.heap p
            ≡ place_for M s'.fuse_root s'.entries_vdir (uid_in (component_in s (some name))))
  pub only : (name : Bytes) (p : Ptr) → M.get s'.entries_vdir name ≡ some p → P name

-- The loop over all entries is the one over the names of those that pass the test.
each-load_entry-load_file :
    ⦃I : Ical⦄ {M : HashMap} (entries : List DirEntry)
    → each (load_entry {M = M}) entries ≡ each load_file (ics_names entries)
unfolding ics_names load_entry
each-load_entry-load_file {M = M} [] = refl
each-load_entry-load_file {M = M} (entry ∷ entries) = elim (Bool-cases (is_ics entry)) [
  | inl taken ↦ rw (taken, each-load_entry-load_file {M = M} entries) refl
  | inr skipped ↦ rw (skipped, each-load_entry-load_file {M = M} entries) refl
]

module _ ⦃I : Ical⦄ {M : HashMap} (L : IsLawful M) (K : KeepsParent) (s : Mount M)
    (names : List Bytes) where
  steps-Mounted :
      (s1 s' : Mount M)
      → Empty s
      → Loaded names (rooted s) s1
      → Settled (M.get_keys s1.entries_vdir) s1 s'
      → Mounted (λ name. listed name names ≡ true) s s'
  steps-Mounted s1 s' none_live d w =
      let index : s'.entries_vdir ≡ s1.entries_vdir =
        ap (λ (u : Mount M). u.entries_vdir) w.rest_same in
      let root : s'.fuse_root ≡ s1.fuse_root = ap (λ (u : Mount M). u.fuse_root) w.rest_same in
      record {
        ready = w.ready;
        implements = namespace_of-Implements s' w.ready.is_tree w.ready.root_live w.ready.root_top;
        mounted = λ name e m r.
            let (p, found, c) = d.loaded name e m (read_entry-rooted s name ∙ r) in
            let named : vdir_name_of s1.heap p ≡ some name =
              ap file_in c ∙ ap some (read_entry-filename_vdir s name e r) in
            (
              p,
              ap (λ k. M.get k name) index ∙ found,
              w.files_same p ∙ named,
              w.settled name p (ground (arith, L.listed-get_keys s1.entries_vdir name)) found
                  ∙ (ap (place_for M s1.fuse_root s1.entries_vdir) (
                        named_parent_of s1 p name named
                        ∙ ap uid_in (component_kept s names none_live s1 d name))
                      ∙ sym (
                          ap
                            (λ (u : Mount M).
                              place_for M u.fuse_root u.entries_vdir
                                (uid_in (component_in s (some name))))
                            w.rest_same)),
            );
        only = λ name p found. elim (Bool-cases (listed name names)) [
          | inl there ↦ there
          | inr out ↦
              let gone : M.get s1.entries_vdir name ≡ none =
                d.unlisted name out ∙ rooted-unlisted L s name in
              cc (sym (ap (λ k. M.get k name) index) ∙ found)
        ];
      }

  names-Mounted :
      Empty s
      → ((path : Bytes) → s.can_write path ≡ true)
      → All (Lacks b'/') names
      → DistinctNames names
      → Returns
          (λ _ s'. Mounted (λ name. listed name names ≡ true) s s')
          (and_then
            (each load_file names (rooted s))
            (λ _ u. each place_entry (M.get_keys u.entries_vdir) u))
  unfolding rooted
  names-Mounted none_live may plain distinct =
      Returns-and_then _ _ (each load_file names (rooted s))
        (λ _ u. each place_entry (M.get_keys u.entries_vdir) u)
        (each-load_file-Loaded L names (rooted s) (rooted-IsTree s none_live)
          (rooted-IsIndexed s L none_live) plain distinct (λ name m. L.get-empty name))
        λ _ s1 d.
          Returns-mono _ _ (each place_entry (M.get_keys s1.entries_vdir) s1)
            (each-place_entry-Settled K (M.get_keys s1.entries_vdir) s1
              (Loaded-Ready s names none_live s1 d)
              (λ path. ap (λ (u : Mount M). u.can_write path) d.rest_same ∙ may path)
              (L.get_keys-DistinctNames s1.entries_vdir) (Loaded-Waiting s names none_live s1 d L))
            λ _ s' w. steps-Mounted s1 s' none_live d w

module _ ⦃I : Ical⦄ {M : HashMap} (L : IsLawful M) (K : KeepsParent) (s : Mount M)
    (entries : List DirEntry) where
  -- In a program that has made no node yet, with a lawful table and files that can all be written, and
  -- given what KeepsParent relies on: whatever the vdir has, where the regular files with ".ics" in
  -- their names have different names without a slash, loading it ends without a fault. Each of those
  -- files that can be read as an entry has a node then, in the index under its name, whose parent is
  -- the root, if the file names no parent, the node of the file "<uid>.ics" of the parent that it names,
  -- if that has one, and no node otherwise; nothing else is in the index, and paths are looked up in the tree
  -- that the nodes make.
  pub load_root_node_tree-Mounted :
      Empty s
      → ((path : Bytes) → s.can_write path ≡ true)
      → All (Lacks b'/') (ics_names entries)
      → DistinctNames (ics_names entries)
      → Returns (λ _ s'. Mounted (IsIcsFile entries) s s') (load_root_node_tree (some entries) s)
  unfolding load_root_node_tree create_tree_node rooted
  load_root_node_tree-Mounted none_live may plain distinct =
      rw (each-load_entry-load_file {M = M} entries) (
        Returns-mono _ _
          (and_then (each load_file (ics_names entries) (rooted s))
            (λ _ u. each place_entry (M.get_keys u.entries_vdir) u))
          (names-Mounted L K s (ics_names entries) none_live may plain distinct)
          λ _ s' m. record {
            ready = m.ready;
            implements = m.implements;
            mounted =
                λ name e there r. m.mounted name e ((listed-ics_names entries name).1 there) r;
            only = λ name p found. (listed-ics_names entries name).0 (m.only name p found);
          })
