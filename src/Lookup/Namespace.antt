-- ===== src/Lookup/Namespace.antt =====
-- The abstract view of the mounted tree: which node each list of names leads to. `get_node_by_path`
-- looks a path up in it.
use ical_fs.Base.{
  ◌≡◌, refl, inl, inr, ◌≤◌, Bytes, str_eq, str_eq_iff, true, false, none, List, [], ◌∷◌, ◌++◌,
  arith, length, Bool-cases, ok,
}
use ical_fs.Path.{split_path}
use ical_fs.Tree.{Ptr, Heap}
use ical_fs.Tree.Links.{has, live, children_of}
use ical_fs.HashMap.{HashMap, listed}
use ical_fs.Store.{AgendaEntry, Mount}
use ical_fs.Store.Names.{filename_of, names_of}
use ical_fs.Store.Siblings.{IsTree}
use ical_fs.Lookup.{max_segments, get_node_by_path}
use ical_fs.Lookup.Chains.{Chain, get_node_by_path-Leads}

-- A last step is added to a chain, or taken off it.
pub Chain-snoc :
    (h : Heap AgendaEntry) (p : Ptr) (names : List Bytes) (name : Bytes) (r q : Ptr)
    → Chain h p names r
    → has q (children_of h r) ≡ true
    → filename_of h q ≡ name
    → Chain h p (names ++ name ∷ []) q
Chain-snoc h p [] name r q c m n = (q, rw c m, n, refl)
Chain-snoc h p (i ∷ names) name r q (c, m, n, rest) m' n' =
    (c, m, n, Chain-snoc h c names name r q rest m' n')

pub Chain-unsnoc :
    (h : Heap AgendaEntry) (p : Ptr) (names : List Bytes) (name : Bytes) (q : Ptr)
    → Chain h p (names ++ name ∷ []) q
    → (r : Ptr) × Chain h p names r × (has q (children_of h r) ≡ true) × (filename_of h q ≡ name)
Chain-unsnoc h p [] name q (c, m, n, e) = (p, refl, rw e at m, rw e at n)
Chain-unsnoc h p (i ∷ names) name q (c, m, n, rest) =
    let (r, before, m', n') = Chain-unsnoc h c names name q rest in (r, (c, m, n, before), m', n')

-- A child with a name that is listed among the names of its siblings.
pub listed-has :
    (h : Heap AgendaEntry) (name : Bytes) (cs : List Ptr)
    → listed name (names_of h cs) ≡ true
    → (c : Ptr) × (has c cs ≡ true) × (filename_of h c ≡ name)
listed-has h name [] m = cc
listed-has h name (d ∷ cs) m = elim (Bool-cases (str_eq name (filename_of h d))) [
  | inl here ↦ (d, ground arith, ground (arith, str_eq_iff name (filename_of h d)))
  | inr later ↦ let (c, m', n) = listed-has h name cs (ground arith) in (c, ground arith, n)
]

module _ {M : HashMap} (s : Mount M) where
  -- A path below a node that leads nowhere names no child of that node.
  pub free_name :
      (path : Bytes) (parent : Ptr) (names : List Bytes) (name : Bytes)
      → IsTree s.heap
      → live s.heap s.fuse_root ≡ true
      → Chain s.heap s.fuse_root names parent
      → split_path path ≡ names ++ name ∷ []
      → length (split_path path) ≤ max_segments
      → get_node_by_path path s ≡ ok none s
      → listed name (names_of s.heap (children_of s.heap parent)) ≡ false
  free_name path parent names name t l c split short missing =
      elim (Bool-cases (listed name (names_of s.heap (children_of s.heap parent)))) [
        | inr free ↦ free
        | inl taken ↦
            let (q, m, n) = listed-has s.heap name (children_of s.heap parent) taken in
            let (o, ran, leads) = get_node_by_path-Leads s path t l short in
            let found =
              (leads q).1 (rw split (Chain-snoc s.heap s.fuse_root names name parent q c m n)) in
            cc
      ]
