-- ===== src/Lookup/Spec.antt =====
-- The abstract file system: a table from lists of names to nodes, and what it means that a mount
-- implements it.
use ical_fs.Base.{
  ℕ, zero, suc, ◌≡◌, refl, sym, ap, ◌∙◌, ◌↔◌, ◌⊎◌, inl, inr, ◌≤◌, Bytes, str_eq, str_eq_iff, Bool,
  true, false, ◌&&◌, Option, none, some, List, [], ◌∷◌, ◌++◌, arith, length, length-append,
  Option-cases, ok, if◌then◌else◌,
}
use ical_fs.Path.{split_path}
use ical_fs.Tree.{Ptr, Heap}
use ical_fs.Tree.Links.{live, parent_of}
use ical_fs.Tree.Moves.{Linked}
use ical_fs.HashMap.{HashMap}
use ical_fs.Store.{AgendaEntry, Mount}
use ical_fs.Store.Siblings.{IsTree}
use ical_fs.Lookup.{max_segments, get_node_by_path}
use ical_fs.Lookup.Chains.{Chain, walk-Leads, get_node_by_path-Leads}
use ical_fs.Lookup.Namespace.{Chain-unsnoc}

-- Which node a list of names stands for, from the root down.
abbrev pub Namespace : Type 0
Namespace = List Bytes → Option Ptr

unfoldable pub same_names : List Bytes → List Bytes → Bool
same_names [] [] = true
same_names (n ∷ ns) (m ∷ ms) = str_eq n m && same_names ns ms
same_names _ _ = false

pub same_names_iff : (ns ms : List Bytes) → (same_names ns ms ≡ true) ↔ (ns ≡ ms)
unfolding same_names
same_names_iff [] [] = (λ h. refl, λ h. refl)
same_names_iff [] (m ∷ ms) = (λ h. cc, λ h. cc)
same_names_iff (n ∷ ns) [] = (λ h. cc, λ h. cc)
same_names_iff (n ∷ ns) (m ∷ ms) = ground (arith, same_names_iff ns ms, str_eq_iff n m)

-- The operations of the abstract file system.
abbrev pub link : List Bytes → Ptr → Namespace → Namespace
link names node N ms = if same_names ms names then some node else N ms

abbrev pub unlink : List Bytes → Namespace → Namespace
unlink names N ms = if same_names ms names then none else N ms

-- The table has exactly the nodes that lists of names lead to.
abbrev pub Agrees : Heap AgendaEntry → Ptr → Namespace → Type 0
Agrees h root N = (names : List Bytes) (q : Ptr) → (N names ≡ some q) ↔ Chain h root names q

-- The mount is a tree below a root without a parent, and the names that lead to a node are those
-- that the table has for it.
pub record Implements {M : HashMap} (s : Mount M) (N : Namespace) : Type 0 where
  pub is_tree : IsTree s.heap
  pub root_live : live s.heap s.fuse_root ≡ true
  pub root_top : parent_of s.heap s.fuse_root ≡ none
  pub agrees : Agrees s.heap s.fuse_root N

pub last_split :
    (ns : List Bytes)
    → (ns ≡ []) ⊎ ((init : List Bytes) × (last : Bytes) × (ns ≡ init ++ last ∷ []))
last_split [] = inl refl
last_split (n ∷ ns) = elim (last_split ns) [
  | inl empty ↦ inr ([], n, ap (λ t. n ∷ t) empty)
  | inr (init, last, e) ↦ inr (n ∷ init, last, ap (λ t. n ∷ t) e)
]

longer :
    (init : List Bytes) (last : Bytes) (ns : List Bytes)
    → ns ≡ init ++ last ∷ []
    → length ns ≡ suc (length init)
longer init last ns e = rw (e, length-append init (last ∷ [])) (omega arith)

module _ (h : Heap AgendaEntry) (l : Linked h) (root : Ptr) (top : parent_of h root ≡ none) where
  at_root : (names : List Bytes) → Chain h root names root → names ≡ []
  at_root names c = elim (last_split names) [
    | inl empty ↦ empty
    | inr (init, last, e) ↦
        let (r, before, m, n) = Chain-unsnoc h root init last root (rw e at c) in
        absurd (ground (arith, l.links r root))
  ]

  Chain-unique_within :
      (k : ℕ) (ns ms : List Bytes) (q : Ptr)
      → length ns ≤ k
      → Chain h root ns q
      → Chain h root ms q
      → ns ≡ ms
  Chain-unique_within zero ns ms q le c d = elim (last_split ns) [
    | inl empty ↦
        let here : root ≡ q = rw empty at c in empty ∙ sym (at_root ms (rw (sym here) at d))
    | inr (init, last, e) ↦ absurd (ground (arith, longer init last ns e))
  ]
  Chain-unique_within (suc k) ns ms q le c d = elim (last_split ns) [
    | inl empty ↦
        let here : root ≡ q = rw empty at c in empty ∙ sym (at_root ms (rw (sym here) at d))
    | inr (init, last, e) ↦ elim (last_split ms) [
      | inl empty ↦
          let here : root ≡ q = rw empty at d in at_root ns (rw (sym here) at c) ∙ sym empty
      | inr (init', last', e') ↦
          let (r, before, m, n) = Chain-unsnoc h root init last q (rw e at c) in
          let (r', before', m', n') = Chain-unsnoc h root init' last' q (rw e' at d) in
          let same : r' ≡ r = ground (arith, l.links r q, l.links r' q) in
          let up : init ≡ init' =
            Chain-unique_within k init init' r (ground (arith, longer init last ns e)) before
              (rw same at before') in
          cc
    ]
  ]

  -- No two lists of names lead from the root to one node.
  pub Chain-unique :
      (ns ms : List Bytes) (q : Ptr) → Chain h root ns q → Chain h root ms q → ns ≡ ms
  Chain-unique ns ms q = Chain-unique_within (length ns) ns ms q (ground arith)

module _ {M : HashMap} (s : Mount M) (t : IsTree s.heap) (l : live s.heap s.fuse_root ≡ true) where
  -- The table that a tree implements.
  pub namespace_of : Namespace
  namespace_of names = (walk-Leads s s.fuse_root names t l).0

  pub namespace_of-Implements : parent_of s.heap s.fuse_root ≡ none → Implements s namespace_of
  unfolding namespace_of
  namespace_of-Implements top = record {
    is_tree = t;
    root_live = l;
    root_top = top;
    agrees = λ names q. (walk-Leads s s.fuse_root names t l).2 q;
  }

module _ {M : HashMap} (s : Mount M) (N : Namespace) (h : Implements s N) where
  -- In a mount that implements a table of names, a lookup of a path of no more than 255 segments
  -- gives what the table has for the names between the slashes, and changes nothing.
  pub get_node_by_path-Implements :
      (path : Bytes)
      → length (split_path path) ≤ max_segments
      → get_node_by_path path s ≡ ok (N (split_path path)) s
  get_node_by_path-Implements path short =
      let (o, ran, leads) = get_node_by_path-Leads s path h.is_tree h.root_live short in
      let same : o ≡ N (split_path path) = elim (Option-cases o) [
        | inl missing ↦ elim (Option-cases (N (split_path path))) [
          | inl nothing ↦ missing ∙ sym nothing
          | inr (q, found) ↦
              let c = (h.agrees (split_path path) q).0 found in cc (missing, (leads q).1 c)
        ]
        | inr (q, found) ↦ found ∙ sym ((h.agrees (split_path path) q).1 ((leads q).0 found))
      ] in
      ran ∙ ap (λ x. ok x s) same
