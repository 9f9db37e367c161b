-- ===== src/Lookup/Relocating.antt =====
-- A node that is moved with all that is below it, and what becomes of the table of names.
use ical_fs.Base.{
  ◌+◌, ◌≡◌, refl, ap, ◌∙◌, ◌≢◌, ◌↔◌, inl, inr, Bytes, str_eq, str_eq_iff, true, Option, none, some,
  List, [], ◌∷◌, ◌++◌, arith, length, length-append, Option-cases, if◌then◌else◌,
}
use ical_fs.Tree.{Ptr, Heap}
use ical_fs.Tree.Links.{live, parent_of}
use ical_fs.Tree.Moves.{Linked}
use ical_fs.HashMap.{HashMap}
use ical_fs.Store.{AgendaEntry, Mount}
use ical_fs.Store.Siblings.{IsTree}
use ical_fs.Lookup.Chains.{Chain, walk-Leads}
use ical_fs.Lookup.Spec.{Namespace, Agrees, Implements, Chain-unique}
use ical_fs.Lookup.Around.{
  Around, Around-Chain, Chain-cases, Around-prefix, Chain-append, Chain-split, Displaced,
  Displaced-sym, Around-Displaced,
}

-- What follows the names at the head of the list.
unfoldable pub strip : List Bytes → List Bytes → Option (List Bytes)
strip [] ms = some ms
strip (n ∷ ns) [] = none
strip (n ∷ ns) (m ∷ ms) = let rest = strip ns ms in if str_eq n m then rest else none

strip_iff : (ns ms rest : List Bytes) → (strip ns ms ≡ some rest) ↔ (ms ≡ ns ++ rest)
unfolding strip
strip_iff [] ms rest = (λ e. cc, λ e. ap some e)
strip_iff (n ∷ ns) [] rest = (λ e. cc, λ e. cc)
strip_iff (n ∷ ns) (m ∷ ms) rest = ground (arith, strip_iff ns ms rest, str_eq_iff n m)

-- The operation of the abstract file system: what stood below the old names stands below the new.
abbrev pub move : List Bytes → List Bytes → Namespace → Namespace
move old new N ms = elim (strip new ms) [
  | some rest ↦ N (old ++ rest)
  | none ↦ elim (strip old ms) [ some rest ↦ none | none ↦ N ms ]
]

-- A way from the node never comes back to it, if the node is below the root.
from_node :
    (h : Heap AgendaEntry) (l : Linked h) (root node : Ptr) (there names : List Bytes) (q : Ptr)
    → parent_of h root ≡ none
    → Chain h root there node
    → Chain h node names q
    → Around node h node names q
from_node h l root node there names q top c d = elim (Chain-cases node h node names q d) [
  | inl around ↦ around
  | inr (pre, rest, e, ne, before, after) ↦
      let again = Chain-append h root there pre node node c before in
      let same : there ≡ there ++ pre =
        Chain-unique h l root top there (there ++ pre) node c again in
      absurd (longer_still pre ne (ap length same ∙ length-append there pre))
]
  where
    longer_still : (pre : List Bytes) → pre ≢ [] → length there ≡ length there + length pre → ⊥
    longer_still [] ne e = ne refl
    longer_still (i ∷ pre) ne e = ground arith

-- Two nodes that one list of names leads to are the same.
one_node :
    {M : HashMap} (s : Mount M) (root : Ptr) (ms : List Bytes) (p q : Ptr)
    → IsTree s.heap
    → live s.heap root ≡ true
    → Chain s.heap root ms p
    → Chain s.heap root ms q
    → p ≡ q
one_node s root ms p q t l c c' =
    let (o, ran, leads) = walk-Leads s root ms t l in cc ((leads p).1 c, (leads q).1 c')

module _ {M : HashMap} (s s' : Mount M) (N : Namespace) (r : Implements s N) (node : Ptr)
    (old new : List Bytes) (d : Displaced node s.heap s'.heap) (t : IsTree s'.heap)
    (top : parent_of s'.heap s.fuse_root ≡ none) (alive : live s'.heap s.fuse_root ≡ true)
    (below : s.fuse_root ≢ node) (at_old : N old ≡ some node)
    (at_new : Chain s'.heap s.fuse_root new node) where
  old-Chain : Chain s.heap s.fuse_root old node
  old-Chain = (r.agrees old node).0 at_old

  below_new :
      (rest : List Bytes) (q : Ptr)
      → (N (old ++ rest) ≡ some q) ↔ Chain s'.heap s.fuse_root (new ++ rest) q
  below_new rest q = (
    λ e.
        let (p, before, after) =
          Chain-split s.heap s.fuse_root old rest q ((r.agrees (old ++ rest) q).0 e) in
        let same : p ≡ node =
          one_node s s.fuse_root old p node r.is_tree r.root_live before old-Chain in
        let around =
          from_node s.heap r.is_tree.linked s.fuse_root node old rest q r.root_top old-Chain
            (rw same at after) in
        Chain-append s'.heap s.fuse_root new rest node q at_new (
          Around-Chain node s'.heap node rest q
            (Around-Displaced s.heap s'.heap node rest q d around)),
    λ c.
        let (p, before, after) = Chain-split s'.heap s.fuse_root new rest q c in
        let same : p ≡ node = one_node s' s.fuse_root new p node t alive before at_new in
        let around =
          from_node s'.heap t.linked s.fuse_root node new rest q top at_new (rw same at after) in
        (r.agrees (old ++ rest) q).1 (
          Chain-append s.heap s.fuse_root old rest node q old-Chain (
            Around-Chain node s.heap node rest q
              (Around-Displaced s'.heap s.heap node rest q (Displaced-sym d) around))),
  )

  elsewhere :
      (ms : List Bytes) (q : Ptr)
      → strip new ms ≡ none
      → strip old ms ≡ none
      → (N ms ≡ some q) ↔ Chain s'.heap s.fuse_root ms q
  elsewhere ms q no_new no_old = (
    λ e. elim (Chain-cases node s.heap s.fuse_root ms q ((r.agrees ms q).0 e)) [
      | inl around ↦
          Around-Chain node s'.heap s.fuse_root ms q
            (Around-Displaced s.heap s'.heap s.fuse_root ms q d around)
      | inr (pre, rest, e', ne, before, after) ↦
          let same : pre ≡ old =
            Chain-unique s.heap r.is_tree.linked s.fuse_root r.root_top pre old node before
              old-Chain in
          absurd (ground (arith, (strip_iff old ms rest).1 (e' ∙ ap (λ x. x ++ rest) same)))
    ],
    λ c. elim (Chain-cases node s'.heap s.fuse_root ms q c) [
      | inl around ↦ (r.agrees ms q).1 (
          Around-Chain node s.heap s.fuse_root ms q
            (Around-Displaced s'.heap s.heap s.fuse_root ms q (Displaced-sym d) around))
      | inr (pre, rest, e', ne, before, after) ↦
          let same : pre ≡ new =
            Chain-unique s'.heap t.linked s.fuse_root top pre new node before at_new in
          absurd (ground (arith, (strip_iff new ms rest).1 (e' ∙ ap (λ x. x ++ rest) same)))
    ],
  )

  -- Below the old names nothing is left, unless it is also below the new ones.
  below_old :
      (ms rest : List Bytes) (q : Ptr)
      → strip new ms ≡ none
      → ms ≡ old ++ rest
      → Chain s'.heap s.fuse_root ms q
      → ⊥
  below_old ms rest q no_new e c = elim (Chain-cases node s'.heap s.fuse_root ms q c) [
    | inl around ↦
        let back = Around-Displaced s'.heap s.heap s.fuse_root ms q (Displaced-sym d) around in
        let (p, before, other) =
          Around-prefix node s.heap s.fuse_root old rest q below (rw e at back) in
        other (one_node s s.fuse_root old p node r.is_tree r.root_live before old-Chain)
    | inr (pre, post, e', ne, before, after) ↦
        let same : pre ≡ new =
          Chain-unique s'.heap t.linked s.fuse_root top pre new node before at_new in
        ground (arith, (strip_iff new ms post).1 (e' ∙ ap (λ x. x ++ post) same))
  ]

  -- The table after the move.
  pub move-Agrees : Agrees s'.heap s.fuse_root (move old new N)
  move-Agrees ms q = elim (Option-cases (strip new ms)) [
    | inr (rest, e) ↦ rw (move, e, (strip_iff new ms rest).0 e) (below_new rest q)
    | inl no_new ↦ elim (Option-cases (strip old ms)) [
      | inr (rest, e) ↦
          rw (move, no_new, e)
            (λ e'. cc, λ c. absurd (below_old ms rest q no_new ((strip_iff old ms rest).0 e) c))
      | inl no_old ↦ rw (move, no_new, no_old) (elsewhere ms q no_new no_old)
    ]
  ]
