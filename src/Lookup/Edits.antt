-- ===== src/Lookup/Edits.antt =====
-- Edits of the tree at one node without children, and what becomes of the table of names.
use ical_fs.Base.{
  ◌≡◌, sym, ap, ◌∙◌, ◌≢◌, ◌↔◌, inl, inr, Bytes, true, false, none, some, List, [], ◌∷◌, ◌++◌, arith,
  Option-cases, Bool-cases, ◌==◌,
}
use ical_fs.Tree.{Ptr, Heap}
use ical_fs.Tree.Links.{has, live, children_of, parent_of}
use ical_fs.Tree.Moves.{Linked}
use ical_fs.HashMap.{HashMap}
use ical_fs.Store.{AgendaEntry, Mount}
use ical_fs.Store.Names.{filename_of}
use ical_fs.Store.Siblings.{IsTree}
use ical_fs.Lookup.Chains.{Chain}
use ical_fs.Lookup.Namespace.{Chain-snoc, Chain-unsnoc}
use ical_fs.Lookup.Spec.{
  Namespace, same_names, same_names_iff, link, unlink, Agrees, Implements, Chain-unique, last_split,
}

-- The heaps differ only in the place of the node, which has no children in either.
pub record Differs (node : Ptr) (h h' : Heap AgendaEntry) : Type 0 where
  pub leaf : children_of h node ≡ []
  pub leaf' : children_of h' node ≡ []
  pub places : (x c : Ptr) → c ≢ node → has c (children_of h' x) ≡ has c (children_of h x)
  pub names : (c : Ptr) → c ≢ node → filename_of h' c ≡ filename_of h c

Differs-sym : {node : Ptr} {h h' : Heap AgendaEntry} → Differs node h h' → Differs node h' h
Differs-sym d = record {
  leaf = d.leaf';
  leaf' = d.leaf;
  places = λ x c ne. sym (d.places x c ne);
  names = λ c ne. sym (d.names c ne);
}

pub Chain-Differs :
    {node : Ptr} (h h' : Heap AgendaEntry) (p : Ptr) (names : List Bytes) (q : Ptr)
    → Differs node h h'
    → q ≢ node
    → Chain h p names q
    → Chain h' p names q
Chain-Differs h h' p [] q d ne c = c
Chain-Differs {node} h h' p (i ∷ names) q d ne (c, m, n, rest) = elim (Bool-cases (c == node)) [
  | inl here ↦ let same : c ≡ node = ground arith in absurd (ends names (rw same at rest))
  | inr away ↦
      let other : c ≢ node = λ e. ground arith in
      (c, d.places p c other ∙ m, d.names c other ∙ n, Chain-Differs h h' c names q d ne rest)
]
  where
    ends : (names : List Bytes) → Chain h node names q → ⊥
    ends [] e = ne (sym e)
    ends (j ∷ names) (c, m, n, rest) = ground (arith, d.leaf)

-- The table has every node but one, and not that one.
pub record AgreesBut (node : Ptr) (h : Heap AgendaEntry) (root : Ptr) (N : Namespace) : Type 0 where
  pub missing : (names : List Bytes) → N names ≢ some node
  pub others : (names : List Bytes) (q : Ptr) → q ≢ node → (N names ≡ some q) ↔ Chain h root names q

pub AgreesBut-Differs :
    {node : Ptr} {h h' : Heap AgendaEntry} {root : Ptr} {N : Namespace}
    → Differs node h h'
    → AgreesBut node h root N
    → AgreesBut node h' root N
AgreesBut-Differs {node} {h} {h'} {root} d a = record {
  missing = a.missing;
  others = λ names q ne. (
    λ e. Chain-Differs h h' root names q d ne ((a.others names q ne).0 e),
    λ c. (a.others names q ne).1 (Chain-Differs h' h root names q (Differs-sym d) ne c),
  );
}

no_link :
    (h : Heap AgendaEntry) (l : Linked h) (q : Ptr)
    → ((x : Ptr) → has q (children_of h x) ≡ false)
    → parent_of h q ≡ none
no_link h l q apart = elim (Option-cases (parent_of h q)) [
  | inl top ↦ top
  | inr (x, up) ↦ ground (arith, l.links x q, apart x)
]

top_apart :
    (h : Heap AgendaEntry) (l : Linked h) (root : Ptr)
    → parent_of h root ≡ none
    → (x : Ptr) → has root (children_of h x) ≡ false
top_apart h l root top x = ground (arith, l.links x root)

-- After an edit at a node other than the root, the root is still without a parent.
pub Differs-top :
    {node root : Ptr} {h h' : Heap AgendaEntry}
    → Differs node h h'
    → Linked h
    → Linked h'
    → root ≢ node
    → parent_of h root ≡ none
    → parent_of h' root ≡ none
Differs-top {node} {root} {h} {h'} d l l' ne top =
    no_link h' l' root λ x. d.places x root ne ∙ top_apart h l root top x

pub AgreesBut-unlink :
    {M : HashMap} (s : Mount M) (N : Namespace) (names : List Bytes) (node : Ptr)
    → Implements s N
    → N names ≡ some node
    → AgreesBut node s.heap s.fuse_root (unlink names N)
AgreesBut-unlink s N names node h e =
    let unique = λ (ms : List Bytes) (e' : N ms ≡ some node).
      Chain-unique s.heap h.is_tree.linked s.fuse_root h.root_top ms names node
        ((h.agrees ms node).0 e') ((h.agrees names node).0 e) in
    record {
      missing = λ ms e'. elim (Bool-cases (same_names ms names)) [
        | inl here ↦ cc
        | inr away ↦ ground (arith, unique ms, same_names_iff ms names)
      ];
      others = λ ms q ne.
          let step : (unlink names N ms ≡ some q) ↔ (N ms ≡ some q) =
            elim (Bool-cases (same_names ms names)) [
              | inl here ↦
                  let there = (same_names_iff ms names).0 here in ground (arith, e, ap N there)
              | inr away ↦ ground arith
            ] in
          (λ e'. (h.agrees ms q).0 (step.0 e'), λ c. step.1 ((h.agrees ms q).1 c));
    }

pub Chain-live :
    (h : Heap AgendaEntry) (l : Linked h) (p : Ptr) (names : List Bytes) (q : Ptr)
    → live h p ≡ true
    → Chain h p names q
    → live h q ≡ true
Chain-live h l p [] q there e = rw (sym e) there
Chain-live h l p (i ∷ names) q there (c, m, n, rest) =
    Chain-live h l c names q (ground (arith, l.links p c)) rest

pub AgreesBut-dead :
    {M : HashMap} (s : Mount M) (N : Namespace) (node : Ptr)
    → Implements s N
    → live s.heap node ≡ false
    → AgreesBut node s.heap s.fuse_root N
AgreesBut-dead s N node h dead = record {
  missing = λ ms e. ground (
    arith,
    Chain-live s.heap h.is_tree.linked s.fuse_root ms node h.root_live ((h.agrees ms node).0 e),
  );
  others = λ ms q ne. h.agrees ms q;
}

module _ {M : HashMap} (s : Mount M) (N : Namespace) (node : Ptr) (t : IsTree s.heap)
    (below : s.fuse_root ≢ node) (a : AgreesBut node s.heap s.fuse_root N) where
  -- The node is nowhere in the tree.
  pub AgreesBut-unlinked :
      ((x : Ptr) → has node (children_of s.heap x) ≡ false) → Agrees s.heap s.fuse_root N
  AgreesBut-unlinked out ms q = elim (Bool-cases (q == node)) [
    | inl here ↦
        let same : q ≡ node = ground arith in
        (λ e. absurd (a.missing ms (rw same at e)), λ c. absurd (unreached ms (rw same at c)))
    | inr away ↦ a.others ms q (λ e. ground arith)
  ]
    where
      unreached : (ms : List Bytes) → Chain s.heap s.fuse_root ms node → ⊥
      unreached ms c = elim (last_split ms) [
        | inl empty ↦ below (rw empty at c)
        | inr (init, last, e) ↦
            let (r, before, m, n) = Chain-unsnoc s.heap s.fuse_root init last node (rw e at c) in
            ground (arith, out r)
      ]

  -- The node stands below a parent, under a name that the table does not have there.
  pub AgreesBut-linked :
      (parent : Ptr) (names : List Bytes) (name : Bytes)
      → parent_of s.heap s.fuse_root ≡ none
      → Chain s.heap s.fuse_root names parent
      → has node (children_of s.heap parent) ≡ true
      → filename_of s.heap node ≡ name
      → N (names ++ name ∷ []) ≡ none
      → Agrees s.heap s.fuse_root (link (names ++ name ∷ []) node N)
  AgreesBut-linked parent names name top c m n free ms q =
      let there = same_names_iff ms (names ++ name ∷ []) in
      let full = Chain-snoc s.heap s.fuse_root names name parent node c m n in
      elim (Bool-cases (q == node)) [
        | inl here ↦
            let same : q ≡ node = ground arith in
            (
              λ e. elim (Bool-cases (same_names ms (names ++ name ∷ []))) [
                | inl hit ↦ rw (same, there.0 hit) full
                | inr miss ↦ absurd (a.missing ms (ground arith))
              ],
              λ c'.
                  let only =
                    Chain-unique s.heap t.linked s.fuse_root top ms (names ++ name ∷ []) node
                      (rw same at c') full in
                  ground (arith, there.1 only),
            )
        | inr away ↦
            let o = a.others ms q (λ e. ground arith) in
            let step : (link (names ++ name ∷ []) node N ms ≡ some q) ↔ (N ms ≡ some q) =
              elim (Bool-cases (same_names ms (names ++ name ∷ []))) [
                | inl hit ↦
                    let empty : N ms ≡ none = ap N (there.0 hit) ∙ free in
                    (λ e. ground arith, λ e. cc)
                | inr miss ↦ ground arith
              ] in
            (λ e. o.0 (step.0 e), λ c'. step.1 (o.1 c'))
      ]
