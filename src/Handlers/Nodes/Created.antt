-- ===== src/Handlers/Nodes/Created.antt =====
-- What `fuse_create` and `fuse_mkdir` need and what they leave: the new entry, its node and its
-- file.
use ical_fs.Base.{
  ℕ, suc, ◌≡◌, refl, ◌∙◌, ◌≢◌, ◌≤◌, inl, inr, Bytes, codes, str_eq, starts_with_str, true, false,
  Option, none, some, List, [], ◌∷◌, ◌++◌, arith, length, ok, if◌then◌else◌, ◌==◌, Bool-cases,
}
use ical_fs.Agenda.Rename.Moving.{HasUid}
use ical_fs.Path.{append_path, split_path, path_is_hidden}
use ical_fs.Path.Names.{directory}
use ical_fs.Path.Segments.{IsName}
use ical_fs.Tree.{Ptr}
use ical_fs.Tree.Links.{live, children_of, content_of}
use ical_fs.Tree.Moves.{has-append}
use ical_fs.HashMap.{HashMap}
use ical_fs.Store.{AgendaEntry, Node, Mount}
use ical_fs.Store.Siblings.{IsTree}
use ical_fs.Store.Creation.{grown, grown-Fresh}
use ical_fs.Lookup.{max_segments, get_node_by_path}
use ical_fs.Lookup.Chains.{Chain}
use ical_fs.Lookup.Stable.{Found}
use ical_fs.Ical.{Ical}
use ical_fs.Entry.{prepared, node_is_directory}
use ical_fs.Entry.Stored.{file_of}
use ical_fs.Agenda.Create.{
  EntryType, entry_directory, entry_file, create_vjournal_directory, create_vjournal_entry,
  create_new_unique_ics_uid, new_component,
}
use ical_fs.Agenda.Create.Inserting.{IsReadable, at_root, at_entry, related_component, Inserted}
use ical_fs.Status.{Status, done}

module _ {M : HashMap} where
  -- The uid of the next entry, and the name of its file.
  abbrev pub next_uid : Mount M → Bytes
  next_uid s = s.uuid s.uuid_count ++ codes "-caldavfs"

  abbrev pub next_entry : Bytes → Mount M → AgendaEntry
  next_entry name s = record { filename = name; filename_vdir = next_uid s ++ codes ".ics" }

  -- A chain is the same among the nodes that there were before a new one.
  pub Chain-Fresh :
      (s : Mount M) (entry : AgendaEntry) (p : Ptr) (names : List Bytes) (q : Ptr)
      → IsTree s.heap
      → Chain s.heap p names q
      → Chain (grown entry s.heap) p names q
  Chain-Fresh s entry p [] q t c = c
  Chain-Fresh s entry p (i ∷ names) q t (c, m, n, rest) =
      let f = grown-Fresh entry s.heap t in
      let apart : c ≢ s.heap.next = λ e. ground (arith, t.linked.links p c, f.was_dead) in
      (
        c,
        rw (f.children_same p) m,
        ground (arith, f.content_same c apart),
        Chain-Fresh s entry c names q t rest,
      )

  pub Chain-Inserted :
      (s s' : Mount M) (parent node : Ptr) {entry : AgendaEntry} {text : Bytes} (p : Ptr)
      (names : List Bytes) (q : Ptr)
      → Inserted parent node entry text s s'
      → Chain s.heap p names q
      → Chain s'.heap p names q
  Chain-Inserted s s' parent node p [] q i c = c
  Chain-Inserted s s' parent node p (name ∷ names) q i (c, m, n, rest) = (
    c,
    elim (Bool-cases (p == parent)) [
      | inl here ↦
          rw (i.children_inserted p, here, has-append c (children_of s.heap p) (node ∷ []))
            (ground arith)
      | inr away ↦ rw (i.children_inserted p, away) m
    ],
    ground (arith, i.content_same c),
    Chain-Inserted s s' parent node c names q i rest,
  )

abbrev pub created : ⦃I : Ical⦄ → EntryType → Bytes → ℕ → Bytes → I.Component
created entry_directory = create_vjournal_directory
created entry_file = create_vjournal_entry

-- The path is a name below a directory, and leads nowhere yet; the components can be read and the
-- new file be written; the name does not start with a dot; a directory other than the root has a uid;
-- and the component that is made has the uid that it was made with.
pub record IsCreatable ⦃I : Ical⦄ {M : HashMap} (etype : EntryType) (p name : Bytes) (parent : Ptr)
    (s : Mount M) (m : Node) (parent_ics : Option I.Component) : Type 0 where
  pub is_name : IsName name
  pub rooted : starts_with_str (append_path p name) (codes "/") ≡ true
  pub parent_found : Found s (directory p) parent
  pub short : length (split_path (append_path p name)) ≤ max_segments
  pub free : get_node_by_path (append_path p name) s ≡ ok none s
  pub readable : IsReadable s parent m parent_ics
  pub directory_test : node_is_directory m parent_ics ≡ true
  pub uid : I.get_uid (created etype (next_uid s) s.clock name) ≡ some (next_uid s)
  pub visible : path_is_hidden name ≡ false
  pub parent_known : HasUid parent_ics
  pub may : s.can_write (file_of s (next_entry name s)) ≡ true

-- A new node has the next entry: it is the last child of `parent` and in the index, its file has the
-- text, and no other node, place or file has changed.
pub record Created {M : HashMap} (name : Bytes) (parent : Ptr) (text : Bytes) (s s' : Mount M)
    : Type 0 where
  pub is_tree : IsTree s'.heap
  pub content_set : content_of s'.heap s.heap.next ≡ some (next_entry name s)
  pub content_same : (x : Ptr) → x ≢ s.heap.next → content_of s'.heap x ≡ content_of s.heap x
  pub live_same : (x : Ptr) → x ≢ s.heap.next → live s'.heap x ≡ live s.heap x
  pub children_created :
      (x : Ptr)
      → children_of s'.heap x
        ≡ (if x == parent then children_of s.heap x ++ s.heap.next ∷ [] else children_of s.heap x)
  pub index : s'.entries_vdir ≡ M.insert s.entries_vdir (next_uid s ++ codes ".ics") s.heap.next
  pub written : s'.files (file_of s (next_entry name s)) ≡ some text
  pub others :
      (path : Bytes)
      → str_eq path (file_of s (next_entry name s)) ≡ false
      → s'.files path ≡ s.files path
  pub rest_same : s' ≡ record s {
    uuid_count = suc s.uuid_count;
    heap = s'.heap;
    entries_vdir = s'.entries_vdir;
    files = s'.files;
  }

-- What the theorems for the two handlers say of a run.
abbrev pub Makes :
    ⦃I : Ical⦄ {M : HashMap}
    → EntryType
    → Bytes
    → Bytes
    → Ptr
    → Option I.Component
    → Mount M
    → Status
    → Mount M
    → Type 0
Makes ⦃I⦄ etype p name parent parent_ics s r s' =
    (r ≡ done 0)
    × Created name parent
        (I.as_ical_string (
          prepared s.clock
            (related_component parent_ics (created etype (next_uid s) s.clock name))))
        s s'
    × (get_node_by_path (append_path p name) s' ≡ ok (some s.heap.next) s')

module _ {M : HashMap} (s : Mount M) (name : Bytes) where
  -- The mount after the new node has been made, before it is in the tree.
  abbrev pub begun : Mount M
  begun = record s {
    uuid_count = suc s.uuid_count;
    heap = grown (next_entry name s) s.heap;
    entries_vdir = M.insert s.entries_vdir (next_uid s ++ codes ".ics") s.heap.next;
  }

  pub old_cell :
      (x : Ptr) {n : Node} → IsTree s.heap → s.heap.cell x ≡ some n → begun.heap.cell x ≡ some n
  old_cell x t here =
      let f = grown-Fresh (next_entry name s) s.heap t in
      f.cell_same x (λ e. ground (arith, f.was_dead)) ∙ here

module _ ⦃I : Ical⦄ {M : HashMap} (s : Mount M) (name : Bytes) where
  pub new_component-created :
      (etype : EntryType)
      → new_component etype name s
        ≡ ok (created etype (next_uid s) s.clock name) (record s { uuid_count = suc s.uuid_count })
  unfolding new_component create_new_unique_ics_uid
  new_component-created entry_directory = refl
  new_component-created entry_file = refl

pub IsReadable-begun :
    ⦃I : Ical⦄ {M : HashMap} (s : Mount M) (name : Bytes) (parent : Ptr) {m : Node}
    {parent_ics : Option I.Component}
    → IsTree s.heap
    → IsReadable s parent m parent_ics
    → IsReadable (begun s name) parent m parent_ics
IsReadable-begun s name parent t (at_root here top) = at_root (old_cell s name parent t here) top
IsReadable-begun s name parent t (at_entry d text r) =
    at_entry d text
      (record { cell = old_cell s name parent t r.cell; content = r.content; file = r.file })
