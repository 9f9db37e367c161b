-- ===== src/Lookup/Chains.antt =====
-- A path leads to a node exactly if its names lead there, from the root down.
use ical_fs.Base.{
  ◌≤◌, ◌≡◌, refl, ap, ◌↔◌, inl, inr, Bytes, codes, str_eq, str_eq_iff, true, Option, none, some,
  List, [], ◌∷◌, arith, Bool-cases, Option-cases, length, All, ok, if◌then◌else◌,
}
use ical_fs.Path.{split_path}
use ical_fs.Path.Segments.{IsName, joined, split_path-joined}
use ical_fs.Tree.{Ptr, Heap, load}
use ical_fs.Tree.Links.{has, live, children_of}
use ical_fs.HashMap.{HashMap, listed, DistinctNames}
use ical_fs.Store.{AgendaEntry, Mount, get_node_filename}
use ical_fs.Store.Names.{filename_of, names_of, AllLive}
use ical_fs.Store.Siblings.{IsTree, children_of-AllLive}
use ical_fs.Lookup.{max_segments, find_child, walk, get_node_by_path}

-- The names lead from the node `p` down to the node `q`.
abbrev pub Chain : Heap AgendaEntry → Ptr → List Bytes → Ptr → Type 0
Chain h p [] q = p ≡ q
Chain h p (name ∷ names) q =
    (c : Ptr) × (has c (children_of h p) ≡ true) × (filename_of h c ≡ name) × Chain h c names q

-- The child with the name, the first if there were several.
child_named : Heap AgendaEntry → List Ptr → Bytes → Option Ptr
child_named h [] name = none
child_named h (c ∷ cs) name =
    let rest = child_named h cs name in if str_eq (filename_of h c) name then some c else rest

listed-has :
    (h : Heap AgendaEntry) (c : Ptr) (cs : List Ptr)
    → has c cs ≡ true
    → listed (filename_of h c) (names_of h cs) ≡ true
listed-has h c [] m = cc
listed-has h c (d ∷ cs) m =
    ground (arith, listed-has h c cs, str_eq_iff (filename_of h c) (filename_of h d))

child_named_sound :
    (h : Heap AgendaEntry) (cs : List Ptr) (name : Bytes) (c : Ptr)
    → child_named h cs name ≡ some c
    → (has c cs ≡ true) × (filename_of h c ≡ name)
unfolding child_named
child_named_sound h [] name c e = cc
child_named_sound h (d ∷ cs) name c e =
    ground (arith, child_named_sound h cs name c, str_eq_iff (filename_of h d) name)

child_named_complete :
    (h : Heap AgendaEntry) (cs : List Ptr) (c : Ptr)
    → DistinctNames (names_of h cs)
    → has c cs ≡ true
    → child_named h cs (filename_of h c) ≡ some c
unfolding child_named
child_named_complete h [] c d m = cc
child_named_complete h (e ∷ cs) c (new, d) m = ground (
  arith,
  child_named_complete h cs c d,
  str_eq_iff (filename_of h e) (filename_of h c),
  listed-has h c cs,
)

module _ {M : HashMap} (s : Mount M) where
  find_child-child_named :
      (name : Bytes) (cs : List Ptr)
      → AllLive s.heap cs
      → find_child name cs s ≡ ok (child_named s.heap cs name) s
  unfolding find_child child_named load get_node_filename
  find_child-child_named name [] l = refl
  find_child-child_named name (c ∷ cs) (l, ls) = ground (arith, find_child-child_named name cs ls)

  -- What a walk gives: the node at the end of the chain of names, if there is one.
  abbrev pub Leads : Ptr → List Bytes → Option Ptr → Type 0
  Leads p names o = (q : Ptr) → (o ≡ some q) ↔ Chain s.heap p names q

  pub walk-Leads :
      (p : Ptr) (names : List Bytes)
      → IsTree s.heap
      → live s.heap p ≡ true
      → (o : Option Ptr) × (walk p names s ≡ ok o s) × Leads p names o
  unfolding walk load
  walk-Leads p [] t l = (some p, refl, λ q. (λ e. cc, λ e. ap some e))
  walk-Leads p (name ∷ names) t l =
      let found =
        find_child-child_named name (children_of s.heap p)
          (children_of-AllLive s.heap p t.linked) in
      elim (Option-cases (child_named s.heap (children_of s.heap p) name)) [
        | inl missing ↦ (
          none,
          ground arith,
          λ q. (
            λ e. cc,
            λ (c, m, n, rest).
                cc (rw n at (child_named_complete s.heap (children_of s.heap p) c (t.unique p) m)),
          ),
        )
        | inr (c, there) ↦
            let (m, n) = child_named_sound s.heap (children_of s.heap p) name c there in
            let (o, ran, leads) = walk-Leads c names t (ground (arith, t.linked.links p c)) in
            (
              o,
              ground arith,
              λ q. (
                λ e. (c, m, n, (leads q).0 e),
                λ (d, m', n', rest).
                    let same : d ≡ c = cc (
                      rw n' at
                          (child_named_complete s.heap (children_of s.heap p) d (t.unique p) m'),
                      there,
                    ) in
                    (leads q).1 (rw same at rest),
              ),
            )
      ]

  -- In a tree with a live root, a path of at most 255 segments leads to a node exactly if the
  -- names on it lead there from the root, and the walk runs without a fault and changes nothing.
  pub get_node_by_path-Leads :
      (path : Bytes)
      → IsTree s.heap
      → live s.heap s.fuse_root ≡ true
      → length (split_path path) ≤ max_segments
      → (o : Option Ptr) × (get_node_by_path path s ≡ ok o s)
        × Leads s.fuse_root (split_path path) o
  unfolding get_node_by_path
  get_node_by_path-Leads path t l short = elim (Bool-cases (str_eq path (codes "/"))) [
    | inl root ↦ (
      some s.fuse_root,
      rw root,
      rw ((str_eq_iff path (codes "/")).0 root)
          (unfold split_path in λ q. (λ e. cc, λ e. ap some e)),
    )
    | inr below ↦
        let (o, ran, leads) = walk-Leads s.fuse_root (split_path path) t l in
        (o, ground arith, leads)
  ]

  -- In a tree with a live root, the path that joins at most 255 names, none empty or with a slash,
  -- which lead from the root down to a node, is resolved to that node.
  pub get_node_by_path-joined :
      (names : List Bytes) (q : Ptr)
      → IsTree s.heap
      → live s.heap s.fuse_root ≡ true
      → All IsName names
      → length names ≤ max_segments
      → Chain s.heap s.fuse_root names q
      → get_node_by_path (joined names) s ≡ ok (some q) s
  get_node_by_path-joined names q t l named short chain =
      let split = split_path-joined names named in
      let (o, ran, leads) = get_node_by_path-Leads (joined names) t l (rw split short) in
      let found : o ≡ some q = (leads q).1 (rw split chain) in rw found at ran
