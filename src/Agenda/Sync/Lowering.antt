-- ===== src/Agenda/Sync/Lowering.antt =====
-- An entry comes to stand below a node: what that leaves of a mount in which every file can be read.
use ical_fs.Base.{
  ◌≡◌, refl, sym, ap, ◌∙◌, ◌≢◌, inl, inr, Bytes, Option, none, some, arith, ◌==◌, Option-cases,
  if◌then◌else◌,
}
use ical_fs.Tree.{Ptr}
use ical_fs.Tree.Links.{live, content_of, parent_of}
use ical_fs.HashMap.{HashMap}
use ical_fs.Store.{AgendaEntry, Mount}
use ical_fs.Store.Names.{vdir_name_of}
use ical_fs.Store.Siblings.{IsTree}
use ical_fs.Store.Index.{IsIndexed}
use ical_fs.Store.Children.{Joined}
use ical_fs.Store.Relocation.{Relocated}
use ical_fs.Ical.{Ical}
use ical_fs.Agenda.Sync.Ready.{Standing, named_parent_same, component_in, named_parent, Ready}

-- `child` is below `parent`; no other node has another parent, and all entries keep their files.
pub record Below {M : HashMap} (parent child : Ptr) (s s' : Mount M) : Type 0 where
  pub is_tree : IsTree s'.heap
  pub live_same : (x : Ptr) → live s'.heap x ≡ live s.heap x
  pub parent_set :
      (x : Ptr) → parent_of s'.heap x ≡ (if x == child then some parent else parent_of s.heap x)
  pub files_same : (x : Ptr) → vdir_name_of s'.heap x ≡ vdir_name_of s.heap x
  pub rest_same : s' ≡ record s { heap = s'.heap }

pub Joined-Below :
    {M : HashMap} (parent child : Ptr) (s s' : Mount M)
    → Joined parent child s s'
    → Below parent child s s'
Joined-Below parent child s s' j = record {
  is_tree = j.is_tree;
  live_same = j.live_same;
  parent_set = j.parent_joined;
  files_same = j.files_same;
  rest_same = j.rest_same;
}

pub Relocated-Below :
    {M : HashMap} (parent child : Ptr) (s s' : Mount M)
    → Relocated parent child s s'
    → Below parent child s s'
Relocated-Below parent child s s' j = record {
  is_tree = j.is_tree;
  live_same = j.live_same;
  parent_set = j.parent_relocated;
  files_same = j.files_same;
  rest_same = j.rest_same;
}

-- A node with an entry has one still when no entry has another file.
entry_kept :
    {M : HashMap} (s s' : Mount M) (p : Ptr) (e' : AgendaEntry)
    → vdir_name_of s'.heap p ≡ vdir_name_of s.heap p
    → content_of s'.heap p ≡ some e'
    → (e : AgendaEntry) × (content_of s.heap p ≡ some e) × (e.filename_vdir ≡ e'.filename_vdir)
entry_kept s s' p e' same there = elim (Option-cases (content_of s.heap p)) [
  | inl nothing ↦ cc
  | inr (e, before) ↦ (e, before, cc)
]

-- An index is exact when the entries that there are keep their files.
pub files_same-IsIndexed :
    {M : HashMap} (s s' : Mount M)
    → s'.entries_vdir ≡ s.entries_vdir
    → ((x : Ptr) → vdir_name_of s'.heap x ≡ vdir_name_of s.heap x)
    → IsIndexed s
    → IsIndexed s'
files_same-IsIndexed s s' index files i = record {
  sound = λ k p found.
      let (e, c, n) = i.sound k p (rw (sym index) found) in
      let (e', after, same) = entry_kept s' s p e (sym (files p)) c in (e', after, same ∙ n);
  complete = λ p e' c.
      let (e, before, n) = entry_kept s s' p e' (files p) c in
      rw (index, ← n) (i.complete p e before);
}

-- Components do not depend on the heap.
component_same :
    ⦃I : Ical⦄ {M : HashMap} (s s' : Mount M) (o : Option Bytes)
    → s' ≡ record s { heap = s'.heap }
    → component_in s' o ≡ component_in s o
component_same {M = M} s s' none same = refl
component_same {M = M} s s' (some file) same = ap (λ (u : Mount M). component_in u (some file)) same

module _ ⦃I : Ical⦄ {M : HashMap} (parent child : Ptr) (s s' : Mount M) where
  pub Below-Ready :
      (e : AgendaEntry)
      → content_of s.heap child ≡ some e
      → Standing s
      → Below parent child s s'
      → Ready s'
  Below-Ready e entry r b =
      let root : s'.fuse_root ≡ s.fuse_root = ap (λ (u : Mount M). u.fuse_root) b.rest_same in
      let index : s'.entries_vdir ≡ s.entries_vdir =
        ap (λ (u : Mount M). u.entries_vdir) b.rest_same in
      let apart : s.fuse_root ≢ child = λ same. ground (arith, r.root_empty) in
      record {
        is_tree = b.is_tree;
        is_indexed = files_same-IsIndexed s s' index b.files_same r.is_indexed;
        root_live = rw root (b.live_same s.fuse_root ∙ r.root_live);
        root_top = rw root (ground (arith, b.parent_set s.fuse_root, r.root_top));
        root_empty = rw root (elim (Option-cases (content_of s'.heap s.fuse_root)) [
          | inl nothing ↦ nothing
          | inr (e', there) ↦
              let (e, before, n) =
                entry_kept s s' s.fuse_root e' (b.files_same s.fuse_root) there in
              cc (before, r.root_empty)
        ]);
        readable = λ p e' c.
            let (e, before, n) = entry_kept s s' p e' (b.files_same p) c in
            let (k, holds) = r.readable p e before in
            (
              k,
              component_same s s' (vdir_name_of s'.heap p) b.rest_same
                  ∙ (ap (component_in s) (b.files_same p) ∙ holds),
            );
      }

  pub Below-named : Below parent child s s' → (x : Ptr) → named_parent s' x ≡ named_parent s x
  Below-named b x = named_parent_same s s' x (
      component_same s s' (vdir_name_of s'.heap x) b.rest_same
      ∙ ap (component_in s) (b.files_same x))
