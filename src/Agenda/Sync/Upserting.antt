-- ===== src/Agenda/Sync/Upserting.antt =====
-- `upsert_fuse_node`: the node of a file has its new entry, wherever it stands.
use ical_fs.Base.{
  is_some, ◌≡◌, refl, sym, ap, ◌∙◌, ◌≢◌, inl, inr, Bytes, str_eq, str_eq_iff, true, none, some,
  arith, ◌==◌, Option-cases, Bool-cases, Returns, and_then, ◌>>=◌, ◌>>◌, if◌then◌else◌,
}
use ical_fs.Tree.{Ptr, Heap}
use ical_fs.Tree.Links.{without, live, children_of, content_of, parent_of}
use ical_fs.Tree.Moves.{Linked, has-without}
use ical_fs.HashMap.{HashMap, IsLawful}
use ical_fs.Store.{AgendaEntry, Node, Mount, upsert_fuse_node, get_fuse_node_from_vdir_name}
use ical_fs.Store.Names.{file_in, vdir_name_of}
use ical_fs.Store.Siblings.{
  IsTree, renamed, set_node_filename-renamed, renamed-Renamed, content_of-renamed,
  content_of-renamed_other, vdir_name_of-renamed, Renamed-Linked, names_of-Renamed,
  DistinctNames-without,
}
use ical_fs.Store.Creation.{grown, grown-Fresh, create_fuse_node-grown}
use ical_fs.Store.Index.{grown-IsIndexed}
use ical_fs.Store.Relocation.{UniqueBut, IsTree-UniqueBut}
use ical_fs.Ical.{Ical}
use ical_fs.Agenda.Sync.Lowering.{files_same-IsIndexed}
use ical_fs.Agenda.Sync.Ready.{component_in, Ready, Standing}

-- `node` has the entry, and is found under its file; all other entries and their files, the places of
-- all nodes and the rest of the mount are as before. The node may have the name of a sibling.
pub record Upserted ⦃I : Ical⦄ {M : HashMap} (entry : AgendaEntry) (node : Ptr) (s s' : Mount M)
    : Type 0 where
  pub linked : Linked s'.heap
  pub unique_but : UniqueBut node s'.heap
  pub standing : Standing s'
  pub live_kept : (x : Ptr) → live s.heap x ≡ true → live s'.heap x ≡ true
  pub parent_same : (x : Ptr) → parent_of s'.heap x ≡ parent_of s.heap x
  pub content_set : content_of s'.heap node ≡ some entry
  pub content_same : (x : Ptr) → x ≢ node → content_of s'.heap x ≡ content_of s.heap x
  pub index_set :
      (k : Bytes)
      → M.get s'.entries_vdir k
        ≡ (if str_eq entry.filename_vdir k then some node else M.get s.entries_vdir k)
  pub same_node : (p : Ptr) → M.get s.entries_vdir entry.filename_vdir ≡ some p → node ≡ p
  pub rest_same : s' ≡ record s { heap = s'.heap; entries_vdir = s'.entries_vdir }

module _ ⦃I : Ical⦄ {M : HashMap} (L : IsLawful M) (s : Mount M) (r : Ready s) (entry : AgendaEntry)
    (holds : (c : I.Component) × (component_in s (some entry.filename_vdir) ≡ some c)) where
  -- The file of every entry holds a component.
  still_readable :
      (node : Ptr) (h : Heap AgendaEntry) (index : M.Map)
      → content_of h node ≡ some entry
      → ((x : Ptr) → x ≢ node → content_of h x ≡ content_of s.heap x)
      → (p : Ptr) (e : AgendaEntry) → content_of h p ≡ some e
      → (c : I.Component) × (component_in
            (record s { heap = h; entries_vdir = index })
            (vdir_name_of h p)
          ≡ some c)
  still_readable node h index mine others p e there = elim (Bool-cases (p == node)) [
    | inl here ↦
        let same : p ≡ node = ground arith in
        (holds.0, ap (λ o. component_in s (file_in o)) (ap (content_of h) same ∙ mine) ∙ holds.1)
    | inr away ↦
        let same = others p (λ e. ground arith) in
        let (c, before) = r.readable p e (sym same ∙ there) in
        (c, ap (λ o. component_in s (file_in o)) same ∙ before)
  ]

  UniqueBut-renamed :
      (node : Ptr) (name : Bytes) (h : Heap AgendaEntry) {n : Node} (e : AgendaEntry)
      → IsTree h
      → h.cell node ≡ some n
      → UniqueBut node (renamed node name n e h)
  UniqueBut-renamed node name h {n} e t cell p =
      let d = renamed-Renamed node name h e cell in
      let cs = without node (children_of h p) in
      rw
        (
          d.children_same p,
          names_of-Renamed node name h (renamed node name n e h) cs d
              (ground (arith, has-without node node (children_of h p) (t.linked.distinct p))),
        )
        (DistinctNames-without h node (children_of h p) (t.unique p))

  created-Upserted :
      M.get s.entries_vdir entry.filename_vdir ≡ none
      → Upserted entry s.heap.next s (record s {
        heap = grown entry s.heap;
        entries_vdir = M.insert s.entries_vdir entry.filename_vdir s.heap.next;
      })
  created-Upserted missing =
      let f = grown-Fresh entry s.heap r.is_tree in
      let apart : s.fuse_root ≢ s.heap.next = λ same. ground (arith, f.was_dead, r.root_live) in
      record {
        linked = f.is_tree.linked;
        unique_but = IsTree-UniqueBut s.heap.next (grown entry s.heap) f.is_tree;
        standing = record {
          is_indexed = grown-IsIndexed L s r.is_tree r.is_indexed entry missing;
          root_live = ap is_some (f.cell_same s.fuse_root apart) ∙ r.root_live;
          root_top = f.parent_same s.fuse_root ∙ r.root_top;
          root_empty = f.content_same s.fuse_root apart ∙ r.root_empty;
          readable =
              still_readable s.heap.next (grown entry s.heap)
                (M.insert s.entries_vdir entry.filename_vdir s.heap.next) f.content_set
                f.content_same;
        };
        live_kept = λ x l. ap is_some (f.cell_same x (λ same. ground (arith, f.was_dead))) ∙ l;
        parent_same = f.parent_same;
        content_set = f.content_set;
        content_same = f.content_same;
        index_set = λ k. L.get-insert s.entries_vdir entry.filename_vdir k s.heap.next;
        same_node = λ p found. cc;
        rest_same = refl;
      }

  renamed-Upserted :
      (node : Ptr) (n : Node) (e : AgendaEntry)
      → s.heap.cell node ≡ some n
      → n.content ≡ some e
      → e.filename_vdir ≡ entry.filename_vdir
      → M.get s.entries_vdir entry.filename_vdir ≡ some node
      → Upserted entry node s (record s { heap = renamed node entry.filename n e s.heap })
  renamed-Upserted node n e cell content named found =
      let h = renamed node entry.filename n e s.heap in
      let d = renamed-Renamed node entry.filename s.heap e cell in
      let files = vdir_name_of-renamed node entry.filename s.heap e cell content in
      let mine : content_of h node ≡ some entry =
        content_of-renamed node entry.filename s.heap n e
        ∙ ap (λ f. some (record { filename = entry.filename; filename_vdir = f })) named in
      let others = λ (x : Ptr). content_of-renamed_other node entry.filename s.heap n e x in
      let apart : s.fuse_root ≢ node = λ same. ground (arith, r.root_empty) in
      record {
        linked = Renamed-Linked node entry.filename s.heap h r.is_tree.linked d;
        unique_but = UniqueBut-renamed node entry.filename s.heap e r.is_tree cell;
        standing = record {
          is_indexed = files_same-IsIndexed s (record s { heap = h }) refl files r.is_indexed;
          root_live = d.live_same s.fuse_root ∙ r.root_live;
          root_top = d.parent_same s.fuse_root ∙ r.root_top;
          root_empty = others s.fuse_root apart ∙ r.root_empty;
          readable = still_readable node h s.entries_vdir mine others;
        };
        live_kept = λ x l. d.live_same x ∙ l;
        parent_same = d.parent_same;
        content_set = mine;
        content_same = others;
        index_set = λ k. elim (Bool-cases (str_eq entry.filename_vdir k)) [
          | inl here ↦ rw (here, ← (str_eq_iff entry.filename_vdir k).0 here) found
          | inr away ↦ rw away refl
        ];
        same_node = λ p again. cc;
        rest_same = refl;
      }

  pub upsert_fuse_node-Upserted :
      Returns (λ node s'. Upserted entry node s s') (upsert_fuse_node entry s)
  unfolding upsert_fuse_node get_fuse_node_from_vdir_name
  upsert_fuse_node-Upserted = elim (Option-cases (M.get s.entries_vdir entry.filename_vdir)) [
    | inl missing ↦
        rw (◌>>=◌, and_then, missing, create_fuse_node-grown entry s) (created-Upserted missing)
    | inr (node, found) ↦
        let (e, there, named) = r.is_indexed.sound entry.filename_vdir node found in
        elim (Option-cases (s.heap.cell node)) [
          | inl dead ↦ cc
          | inr (n, cell) ↦
              let content : n.content ≡ some e = ground arith in
              rw
                (
                  ◌>>=◌,
                  ◌>>◌,
                  and_then,
                  found,
                  set_node_filename-renamed s node entry.filename cell content,
                )
                (renamed-Upserted node n e cell content named found)
        ]
  ]
