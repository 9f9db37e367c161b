-- ===== src/Store/Index.antt =====
-- The index of the nodes by their file names in the vdir: it names exactly the nodes that there are.
use ical_fs.Base.{
  ◌≡◌, sym, ap, ◌∙◌, ◌≢◌, inl, inr, Bytes, str_eq, str_eq_iff, str_eq_refl, str_eq_ne, false, none,
  some, [], arith, ◌==◌, Bool-cases, Returns, Returns-mono,
}
use ical_fs.Tree.{Ptr}
use ical_fs.Tree.Links.{children_of, content_of}
use ical_fs.HashMap.{HashMap, IsLawful}
use ical_fs.Store.{AgendaEntry, Mount, create_fuse_node, delete_fuse_node}
use ical_fs.Store.Siblings.{IsTree}
use ical_fs.Store.Creation.{grown, grown-Fresh, create_fuse_node-grown}
use ical_fs.Store.Deletion.{Deleted, delete_fuse_node-Deleted}

-- Each name in the index leads to a live node whose entry has that file name, so no pointer in it
-- dangles, and each node with an entry is found under its file name.
pub record IsIndexed {M : HashMap} (s : Mount M) : Type 0 where
  pub sound :
      (k : Bytes) (p : Ptr)
      → M.get s.entries_vdir k ≡ some p
      → (e : AgendaEntry) × (content_of s.heap p ≡ some e) × (e.filename_vdir ≡ k)
  pub complete :
      (p : Ptr) (e : AgendaEntry)
      → content_of s.heap p ≡ some e
      → M.get s.entries_vdir e.filename_vdir ≡ some p

module _ {M : HashMap} (L : IsLawful M) (s : Mount M) (t : IsTree s.heap) (i : IsIndexed s) where
  pub grown-IsIndexed :
      (entry : AgendaEntry)
      → M.get s.entries_vdir entry.filename_vdir ≡ none
      → IsIndexed (record s {
        heap = grown entry s.heap;
        entries_vdir = M.insert s.entries_vdir entry.filename_vdir s.heap.next;
      })
  grown-IsIndexed entry unused =
      let f = grown-Fresh entry s.heap t in
      let law = λ (k : Bytes). L.get-insert s.entries_vdir entry.filename_vdir k s.heap.next in
      record {
        sound = λ k p found. elim (Bool-cases (str_eq entry.filename_vdir k)) [
          | inl here ↦
              let same : p ≡ s.heap.next = ground (arith, law k) in
              (entry, rw same f.content_set, (str_eq_iff entry.filename_vdir k).0 here)
          | inr other ↦
              let (e, c, n) = i.sound k p (ground (arith, law k)) in
              (e, f.content_same p (λ same. ground (arith, f.was_dead)) ∙ c, n)
        ];
        complete = λ p e c. elim (Bool-cases (p == s.heap.next)) [
          | inl here ↦
              let same : p ≡ s.heap.next = ground arith in
              let mine : entry ≡ e = cc (f.content_set, rw same at c) in
              rw (law e.filename_vdir, ← mine, str_eq_refl entry.filename_vdir) (ap some (sym same))
          | inr other ↦
              let before = i.complete p e (sym (f.content_same p (λ same. ground arith)) ∙ c) in
              ground (arith, law e.filename_vdir, str_eq_iff entry.filename_vdir e.filename_vdir)
        ];
      }

  -- Under the laws of the table, in a tree with an index: creating a node for an entry whose file is
  -- not in the index keeps both.
  pub create_fuse_node-IsIndexed :
      (entry : AgendaEntry)
      → M.get s.entries_vdir entry.filename_vdir ≡ none
      → Returns
          (λ p s'. (content_of s'.heap p ≡ some entry) × IsTree s'.heap × IsIndexed s')
          (create_fuse_node entry s)
  create_fuse_node-IsIndexed entry unused =
      let f = grown-Fresh entry s.heap t in
      rw (create_fuse_node-grown entry s) (f.content_set, f.is_tree, grown-IsIndexed entry unused)

  pub Deleted-IsIndexed :
      (child : Ptr) (e : AgendaEntry) (s' : Mount M)
      → content_of s.heap child ≡ some e
      → Deleted child e.filename_vdir s s'
      → IsIndexed s'
  Deleted-IsIndexed child e s' mine d =
      let law = λ (k : Bytes). L.get-remove s.entries_vdir e.filename_vdir k in
      record {
        sound = λ k p found.
            let left : M.get (M.remove s.entries_vdir e.filename_vdir) k ≡ some p =
              rw d.index at found in
            let kept : M.get s.entries_vdir k ≡ some p = ground (arith, law k) in
            let (e', c, n) = i.sound k p kept in
            let apart : p ≢ child = λ same.
              let twin : e' ≡ e = cc (rw same at c) in
              ground (
                arith,
                law k,
                str_eq_iff e.filename_vdir k,
                ap (λ (x : AgendaEntry). x.filename_vdir) twin,
              ) in
            (e', d.content_same p apart ∙ c, n);
        complete = λ p e' c.
            let apart : p ≢ child = λ same. ground (arith, d.gone) in
            let before = i.complete p e' (sym (d.content_same p apart) ∙ c) in
            let other : str_eq e.filename_vdir e'.filename_vdir ≡ false =
              str_eq_ne e.filename_vdir e'.filename_vdir
                (λ same. apart (cc (before, i.complete child e mine))) in
            rw (d.index, law e'.filename_vdir, other) before;
      }

  -- Under the laws of the table, in a tree with an index: deleting a node with an entry and without
  -- children keeps both, so that no name in the index leads to freed memory.
  pub delete_fuse_node-IsIndexed :
      (child : Ptr) {e : AgendaEntry}
      → content_of s.heap child ≡ some e
      → children_of s.heap child ≡ []
      → Returns (λ _ s'. IsTree s'.heap × IsIndexed s') (delete_fuse_node child s)
  delete_fuse_node-IsIndexed child {e} mine leaf =
      Returns-mono _ _ (delete_fuse_node child s) (delete_fuse_node-Deleted child s t mine leaf)
        λ _ s' d. (d.is_tree, Deleted-IsIndexed child e s' mine d)
