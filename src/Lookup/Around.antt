-- ===== src/Lookup/Around.antt =====
-- Chains of names that go around a node, and those that lead over it.
use ical_fs.Base.{
  ◌≡◌, refl, sym, ap, ◌∙◌, ◌≢◌, ◌⊎◌, inl, inr, Bytes, true, List, [], ◌∷◌, ◌++◌, arith, Bool-cases,
  ◌==◌,
}
use ical_fs.Tree.{Ptr, Heap}
use ical_fs.Tree.Links.{has, children_of}
use ical_fs.Store.{AgendaEntry}
use ical_fs.Store.Names.{filename_of}
use ical_fs.Lookup.Chains.{Chain}

-- The names lead from `p` to `q`, and no step arrives at the node.
abbrev pub Around : Ptr → Heap AgendaEntry → Ptr → List Bytes → Ptr → Type 0
Around node h p [] q = p ≡ q
Around node h p (name ∷ names) q =
    (c : Ptr) × (has c (children_of h p) ≡ true)
    × (filename_of h c ≡ name)
    × (c ≢ node)
    × Around node h c names q

module _ (node : Ptr) (h : Heap AgendaEntry) where
  pub Around-Chain :
      (p : Ptr) (names : List Bytes) (q : Ptr) → Around node h p names q → Chain h p names q
  Around-Chain p [] q e = e
  Around-Chain p (i ∷ names) q (c, m, n, ne, rest) = (c, m, n, Around-Chain c names q rest)

  -- A chain leads around the node or over it.
  pub Chain-cases :
      (p : Ptr) (names : List Bytes) (q : Ptr)
      → Chain h p names q
      → Around node h p names q
        ⊎ ((pre : List Bytes) × (rest : List Bytes) × (names ≡ pre ++ rest)
            × (pre ≢ [])
            × Chain h p pre node
            × Chain h node rest q)
  Chain-cases p [] q e = inl e
  Chain-cases p (i ∷ names) q (c, m, n, rest) = elim (Bool-cases (c == node)) [
    | inl here ↦
        let same : c ≡ node = ground arith in
        inr (i ∷ [], names, refl, (λ e. cc), (c, m, n, same), rw same at rest)
    | inr away ↦ elim (Chain-cases c names q rest) [
      | inl around ↦ inl (c, m, n, (λ e. ground arith), around)
      | inr (pre, post, e, ne, before, after) ↦
          inr (i ∷ pre, post, ap (λ t. i ∷ t) e, (λ e'. cc), (c, m, n, before), after)
    ]
  ]

  -- Where a path around the node stands after its first names.
  pub Around-prefix :
      (p : Ptr) (names rest : List Bytes) (q : Ptr)
      → p ≢ node
      → Around node h p (names ++ rest) q
      → (r : Ptr) × Chain h p names r × (r ≢ node)
  Around-prefix p [] rest q ne a = (p, refl, ne)
  Around-prefix p (i ∷ names) rest q ne (c, m, n, ne', a) =
      let (r, before, other) = Around-prefix c names rest q ne' a in (r, (c, m, n, before), other)

module _ (h : Heap AgendaEntry) where
  pub Chain-append :
      (p : Ptr) (names rest : List Bytes) (r q : Ptr)
      → Chain h p names r
      → Chain h r rest q
      → Chain h p (names ++ rest) q
  Chain-append p [] rest r q e after = rw e after
  Chain-append p (i ∷ names) rest r q (c, m, n, before) after =
      (c, m, n, Chain-append c names rest r q before after)

  pub Chain-split :
      (p : Ptr) (names rest : List Bytes) (q : Ptr)
      → Chain h p (names ++ rest) q
      → (r : Ptr) × Chain h p names r × Chain h r rest q
  Chain-split p [] rest q c = (p, refl, c)
  Chain-split p (i ∷ names) rest q (c, m, n, after) =
      let (r, before, later) = Chain-split c names rest q after in (r, (c, m, n, before), later)

-- The heaps differ only in the place and the name of the node.
pub record Displaced (node : Ptr) (h h' : Heap AgendaEntry) : Type 0 where
  pub places : (x c : Ptr) → c ≢ node → has c (children_of h' x) ≡ has c (children_of h x)
  pub names : (c : Ptr) → c ≢ node → filename_of h' c ≡ filename_of h c

pub Displaced-sym :
    {node : Ptr} {h h' : Heap AgendaEntry} → Displaced node h h' → Displaced node h' h
Displaced-sym d = record {
  places = λ x c ne. sym (d.places x c ne);
  names = λ c ne. sym (d.names c ne);
}

-- A way around the node stays when the node is displaced.
pub Around-Displaced :
    {node : Ptr} (h h' : Heap AgendaEntry) (p : Ptr) (names : List Bytes) (q : Ptr)
    → Displaced node h h'
    → Around node h p names q
    → Around node h' p names q
Around-Displaced h h' p [] q d e = e
Around-Displaced h h' p (i ∷ names) q d (c, m, n, ne, rest) =
    (c, d.places p c ne ∙ m, d.names c ne ∙ n, ne, Around-Displaced h h' c names q d rest)
