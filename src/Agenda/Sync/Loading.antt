-- ===== src/Agenda/Sync/Loading.antt =====
-- The first loop of `load_root_node_tree`: the entries of the files of the vdir.
use ical_fs.Base.{
  ◌≡◌, ◌≢◌, ◌⊎◌, ◌==◌, sym, is_some, refl, ap, ◌∙◌, inl, inr, Bytes, str_eq, str_eq_iff,
  str_eq_refl, true, false, none, some, List, [], ◌∷◌, arith, Lacks, All, each, Option-cases,
  Bool-cases, ok, Returns, Returns-mono, and_then, ◌>>=◌, ◌>>◌, if◌then◌else◌,
}
use ical_fs.Tree.{Ptr}
use ical_fs.Tree.Links.{live, content_of, parent_of}
use ical_fs.HashMap.{HashMap, IsLawful, listed, DistinctNames}
use ical_fs.Store.{AgendaEntry, Mount}
use ical_fs.Store.Siblings.{IsTree}
use ical_fs.Store.Creation.{grown, grown-Fresh, create_fuse_node-grown}
use ical_fs.Store.Index.{IsIndexed, grown-IsIndexed}
use ical_fs.Ical.{Ical}
use ical_fs.Agenda.Sync.{load_file}
use ical_fs.Agenda.Sync.Reading.{
  read_entry, read_entry_again, read_entry-filename_vdir, load_agenda_entry_from_ics_file-reads,
}

-- The names have been read: each that can be read as an entry has a node with it in the index, all
-- other names have in the index what they had, and so has the rest of the mount.
pub record Loaded ⦃I : Ical⦄ {M : HashMap} (names : List Bytes) (s s' : Mount M) : Type 0 where
  pub is_tree : IsTree s'.heap
  pub is_indexed : IsIndexed s'
  pub loaded :
      (name : Bytes) (e : AgendaEntry)
      → listed name names ≡ true
      → read_entry s name ≡ some e
      → (p : Ptr) × (M.get s'.entries_vdir name ≡ some p) × (content_of s'.heap p ≡ some e)
  pub kept :
      (p : Ptr) (e : AgendaEntry) → content_of s.heap p ≡ some e → content_of s'.heap p ≡ some e
  pub old : (x : Ptr) → live s.heap x ≡ true → s'.heap.cell x ≡ s.heap.cell x
  pub parent_same : (x : Ptr) → parent_of s'.heap x ≡ parent_of s.heap x
  pub read :
      (p : Ptr) (e : AgendaEntry)
      → content_of s'.heap p ≡ some e
      → (content_of s.heap p ≡ some e) ⊎ (read_entry s e.filename_vdir ≡ some e)
  pub unlisted :
      (name : Bytes)
      → listed name names ≡ false
      → M.get s'.entries_vdir name ≡ M.get s.entries_vdir name
  pub rest_same : s' ≡ record s { heap = s'.heap; entries_vdir = s'.entries_vdir }

module _ ⦃I : Ical⦄ {M : HashMap} (L : IsLawful M) where
  other_name :
      (n name : Bytes) (names : List Bytes)
      → listed n names ≡ false
      → listed name names ≡ true
      → str_eq n name ≡ false
  other_name n name names out m = elim (Bool-cases (str_eq n name)) [
    | inl same ↦ absurd (ground (arith, ap (λ x. listed x names) ((str_eq_iff n name).0 same)))
    | inr other ↦ other
  ]

  load_file-skips :
      (s : Mount M) (name : Bytes)
      → Lacks b'/' name
      → read_entry s name ≡ none
      → load_file name s ≡ ok tt s
  unfolding load_file
  load_file-skips s name l nothing =
      rw (load_file, ◌>>=◌, and_then, load_agenda_entry_from_ics_file-reads s name l, nothing) refl

  load_file-adds :
      (s : Mount M) (name : Bytes) (e : AgendaEntry)
      → Lacks b'/' name
      → read_entry s name ≡ some e
      → load_file name s
        ≡ ok tt (record s {
          heap = grown e s.heap;
          entries_vdir = M.insert s.entries_vdir e.filename_vdir s.heap.next;
        })
  unfolding load_file
  load_file-adds s name e l read =
      rw
        (
          load_file,
          ◌>>=◌,
          ◌>>◌,
          and_then,
          load_agenda_entry_from_ics_file-reads s name l,
          read,
          create_fuse_node-grown e s,
        )
        refl

  -- In a tree with an index, under the laws of the table, different names of files without a slash,
  -- none of them in the index, are loaded, whatever the files hold: the loop has no fault, the heap
  -- is a tree with an index, each file that can be read as an entry has a node with it there, and
  -- the nodes that there were, the other names in the index and the rest of the mount are as before.
  pub each-load_file-Loaded :
      (names : List Bytes) (s : Mount M)
      → IsTree s.heap
      → IsIndexed s
      → All (Lacks b'/') names
      → DistinctNames names
      → ((name : Bytes) → listed name names ≡ true → M.get s.entries_vdir name ≡ none)
      → Returns (λ _ s'. Loaded names s s') (each load_file names s)
  each-load_file-Loaded [] s t i plain distinct unused = record {
    is_tree = t;
    is_indexed = i;
    loaded = λ name e m. cc;
    kept = λ p e c. c;
    old = λ x l. refl;
    parent_same = λ x. refl;
    read = λ p e c. inl c;
    unlisted = λ name out. refl;
    rest_same = refl;
  }
  each-load_file-Loaded (n ∷ names) s t i (l, plain) (out, distinct) unused =
      elim (Option-cases (read_entry s n)) [
        | inl nothing ↦
            rw (each, ◌>>◌, and_then, load_file-skips s n l nothing)
              (Returns-mono _ _ (each load_file names s)
                (each-load_file-Loaded names s t i plain distinct
                  (λ name m. unused name (ground arith)))
                λ _ s' d. record {
                  is_tree = d.is_tree;
                  is_indexed = d.is_indexed;
                  loaded = λ name e m r. elim (Bool-cases (str_eq name n)) [
                    | inl here ↦
                        absurd (ground (arith, ap (read_entry s) ((str_eq_iff name n).0 here)))
                    | inr later ↦ d.loaded name e (ground arith) r
                  ];
                  kept = d.kept;
                  old = d.old;
                  parent_same = d.parent_same;
                  read = d.read;
                  unlisted = λ name out'. d.unlisted name (ground arith);
                  rest_same = d.rest_same;
                })
        | inr (e, read) ↦
            let s1 : Mount M = record s {
              heap = grown e s.heap;
              entries_vdir = M.insert s.entries_vdir e.filename_vdir s.heap.next;
            } in
            let f = grown-Fresh e s.heap t in
            let named = read_entry-filename_vdir s n e read in
            let law : (name : Bytes)
                → M.get s1.entries_vdir name
                  ≡ (if str_eq n name then some s.heap.next else M.get s.entries_vdir name) =
              λ name.
                L.get-insert s.entries_vdir e.filename_vdir name s.heap.next
                ∙ ap
                    (λ (x : Bytes).
                      if str_eq x name then some s.heap.next else M.get s.entries_vdir name)
                    named in
            rw (each, ◌>>◌, and_then, load_file-adds s n e l read)
              (Returns-mono _ _ (each load_file names s1)
                (each-load_file-Loaded names s1 f.is_tree
                  (grown-IsIndexed L s t i e (rw named (unused n (ground (arith, str_eq_refl n)))))
                  plain distinct
                  (λ name m. ground (arith, law name, other_name n name names out m, unused name)))
                λ _ s' d. record {
                  is_tree = d.is_tree;
                  is_indexed = d.is_indexed;
                  loaded = λ name e' m r. elim (Bool-cases (str_eq name n)) [
                    | inl here ↦
                        let same = (str_eq_iff name n).0 here in
                        let mine : e ≡ e' = cc (read, r, ap (read_entry s) same) in
                        (
                          s.heap.next,
                          rw (same, d.unlisted n out, law n, str_eq_refl n) refl,
                          d.kept s.heap.next e' (f.content_set ∙ ap some mine),
                        )
                    | inr later ↦
                        d.loaded name e' (ground arith)
                          (read_entry_again s e s1.entries_vdir name ∙ r)
                  ];
                  kept = λ p e' c.
                      d.kept p e' (f.content_same p (λ same. ground (arith, f.was_dead)) ∙ c);
                  old = λ x l'.
                      let ne : x ≢ s.heap.next = λ same. ground (arith, f.was_dead) in
                      d.old x (ap is_some (f.cell_same x ne) ∙ l') ∙ f.cell_same x ne;
                  parent_same = λ x. d.parent_same x ∙ f.parent_same x;
                  read = λ p e' c. elim (d.read p e' c) [
                    | inl before ↦ elim (Bool-cases (p == s.heap.next)) [
                      | inl here ↦
                          let same : p ≡ s.heap.next = ground arith in
                          let mine : e ≡ e' = cc (rw same at before, f.content_set) in
                          inr (
                            ap (read_entry s)
                              (ap (λ (x : AgendaEntry). x.filename_vdir) (sym mine) ∙ named)
                            ∙ (read ∙ ap some mine))
                      | inr away ↦ inl (sym (f.content_same p (λ same. ground arith)) ∙ before)
                    ]
                    | inr again ↦
                        inr (sym (read_entry_again s e s1.entries_vdir e'.filename_vdir) ∙ again)
                  ];
                  unlisted = λ name out'.
                      ground
                        (arith, d.unlisted name, law name, str_eq_iff n name, str_eq_iff name n);
                  rest_same = d.rest_same;
                })
      ]
