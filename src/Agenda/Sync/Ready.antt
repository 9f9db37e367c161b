-- ===== src/Agenda/Sync/Ready.antt =====
-- A mount in which every entry's file can be read, and the parents that the entries name.
use ical_fs.Base.{
  ◌≡◌, refl, sym, ap, ◌∙◌, inl, inr, Bytes, codes, str_eq, str_eq_iff, true, Option, none, some,
  ◌++◌, arith, Option-cases, Bool-cases, ok, and_then, ◌>>=◌,
}
use ical_fs.Path.{append_path}
use ical_fs.Tree.{Ptr}
use ical_fs.Tree.Links.{live, content_of, parent_of}
use ical_fs.HashMap.{HashMap}
use ical_fs.Store.{AgendaEntry, Node, Mount}
use ical_fs.Store.Names.{file_in, vdir_name_of}
use ical_fs.Store.Siblings.{IsTree}
use ical_fs.Store.Index.{IsIndexed}
use ical_fs.Ical.{Ical}
use ical_fs.Ical.Properties.{get_parent_uid}
use ical_fs.Entry.Stored.{Stored, file_of, with_file, get_icalcomponent_from_node-Stored}
use ical_fs.Agenda.Sync.{parent_uid_of}

module _ ⦃I : Ical⦄ where
  abbrev pub parsed : Option Bytes → Option I.Component
  parsed none = none
  parsed (some text) = I.from_string text

  abbrev pub uid_in : Option I.Component → Option Bytes
  uid_in none = none
  uid_in (some c) = get_parent_uid c

-- Where an entry belongs that names the parent with the uid: below the root, if there is none, or
-- else below the node whose file the uid names, if there is one.
abbrev pub place_for : (M : HashMap) → Ptr → M.Map → Option Bytes → Option Ptr
place_for M root index none = some root
place_for M root index (some uid) = M.get index (uid ++ codes ".ics")

module _ ⦃I : Ical⦄ {M : HashMap} where
  -- The component in a file of the vdir.
  abbrev pub component_in : Mount M → Option Bytes → Option I.Component
  component_in s none = none
  component_in s (some file) = parsed (s.files (append_path s.vdir file))

  -- The uid of the parent that the entry of a node names.
  unfoldable pub named_parent : Mount M → Ptr → Option Bytes
  named_parent s p = uid_in (component_in s (vdir_name_of s.heap p))

  abbrev pub place_of : Mount M → Ptr → Option Ptr
  place_of s p = place_for M s.fuse_root s.entries_vdir (named_parent s p)

  pub named_parent_of :
      (s : Mount M) (p : Ptr) (file : Bytes)
      → vdir_name_of s.heap p ≡ some file
      → named_parent s p ≡ uid_in (component_in s (some file))
  unfolding named_parent
  named_parent_of s p file named = ap (λ o. uid_in (component_in s o)) named

  pub named_parent_same :
      (s s' : Mount M) (p : Ptr)
      → component_in s' (vdir_name_of s'.heap p) ≡ component_in s (vdir_name_of s.heap p)
      → named_parent s' p ≡ named_parent s p
  unfolding named_parent
  named_parent_same s s' p same = ap uid_in same

  -- The heap is linked and siblings have different names, the root has no parent and no entry, the index is exact, and every file
  -- of an entry holds a component.
  pub record Ready (s : Mount M) : Type 0 where
    pub is_tree : IsTree s.heap
    pub is_indexed : IsIndexed s
    pub root_live : live s.heap s.fuse_root ≡ true
    pub root_top : parent_of s.heap s.fuse_root ≡ none
    pub root_empty : content_of s.heap s.fuse_root ≡ none
    pub readable :
        (p : Ptr) (e : AgendaEntry)
        → content_of s.heap p ≡ some e
        → (c : I.Component) × (component_in s (vdir_name_of s.heap p) ≡ some c)

  -- The same without the tree: siblings may have one name.
  pub record Standing (s : Mount M) : Type 0 where
    pub is_indexed : IsIndexed s
    pub root_live : live s.heap s.fuse_root ≡ true
    pub root_top : parent_of s.heap s.fuse_root ≡ none
    pub root_empty : content_of s.heap s.fuse_root ≡ none
    pub readable :
        (p : Ptr) (e : AgendaEntry)
        → content_of s.heap p ≡ some e
        → (c : I.Component) × (component_in s (vdir_name_of s.heap p) ≡ some c)

  pub Ready-Standing : (s : Mount M) → Ready s → Standing s
  Ready-Standing s r = record {
    is_indexed = r.is_indexed;
    root_live = r.root_live;
    root_top = r.root_top;
    root_empty = r.root_empty;
    readable = r.readable;
  }

  -- A node with an entry whose file holds a component.
  pub file_of_entry :
      (s : Mount M) (p : Ptr) (e : AgendaEntry) (c : I.Component)
      → content_of s.heap p ≡ some e
      → component_in s (vdir_name_of s.heap p) ≡ some c
      → (n : Node) × (text : Bytes) × Stored s p n e text × (I.from_string text ≡ some c)
  file_of_entry s p e c entry holds = elim (Option-cases (s.heap.cell p)) [
    | inl dead ↦ cc
    | inr (n, cell) ↦
        let named : vdir_name_of s.heap p ≡ some e.filename_vdir = ap file_in entry in
        let read : parsed (s.files (file_of s e)) ≡ some c = rw named at holds in
        elim (Option-cases (s.files (file_of s e))) [
          | inl missing ↦ absurd (ground (arith, ap parsed missing))
          | inr (text, there) ↦ (
            n,
            text,
            record { cell = cell; content = ground arith; file = there },
            sym (ap parsed there) ∙ read,
          )
        ]
  ]

  -- Reading a node's component in such a mount.
  pub parent_uid_of-named :
      (s : Mount M) (p : Ptr) (e : AgendaEntry)
      → Standing s
      → content_of s.heap p ≡ some e
      → parent_uid_of p s ≡ ok (named_parent s p) s
  unfolding parent_uid_of named_parent
  parent_uid_of-named s p e r entry =
      let (c, holds) = r.readable p e entry in
      let (n, text, t, read) = file_of_entry s p e c entry holds in
      rw (parent_uid_of, get_icalcomponent_from_node-Stored s p t, ◌>>=◌, and_then, read, holds)
        refl

  -- A component is written over with one that names the same parent.
  pub component_in-written :
      (s : Mount M) (path text new : Bytes) (c c' : I.Component)
      → s.files path ≡ some text
      → I.from_string text ≡ some c
      → I.from_string new ≡ some c'
      → get_parent_uid c' ≡ get_parent_uid c
      → (o : Option Bytes)
      → (uid_in (component_in (with_file path new s) o) ≡ uid_in (component_in s o))
        × ((k : I.Component)
            → component_in s o ≡ some k
            → (k' : I.Component) × (component_in (with_file path new s) o ≡ some k'))
  component_in-written s path text new c c' there read again same none = (refl, λ k e. cc)
  component_in-written s path text new c c' there read again same (some file) =
      elim (Bool-cases (str_eq (append_path s.vdir file) path)) [
        | inr away ↦ rw (component_in, away) (refl, λ k e. (k, e))
        | inl here ↦
            let at_path = (str_eq_iff (append_path s.vdir file) path).0 here in
            let before : component_in s (some file) ≡ some c =
              ap (λ q. parsed (s.files q)) at_path ∙ (ap parsed there ∙ read) in
            let after : component_in (with_file path new s) (some file) ≡ some c' =
              rw (component_in, here) again in
            (ap uid_in after ∙ (same ∙ sym (ap uid_in before)), λ k e. (c', after))
      ]
