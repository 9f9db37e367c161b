-- ===== src/Lookup/Gone.antt =====
-- A path that led to a node leads nowhere after the node has been deleted.
use ical_fs.Base.{
  ◌≡◌, sym, ap, ◌∙◌, ◌≢◌, inl, inr, Bytes, none, List, [], ◌∷◌, arith, Option-cases, ok,
}
use ical_fs.Path.{split_path}
use ical_fs.Tree.{Ptr}
use ical_fs.Tree.Links.{children_of}
use ical_fs.Tree.Moves.{has-without}
use ical_fs.HashMap.{HashMap}
use ical_fs.Store.{Mount}
use ical_fs.Store.Siblings.{IsTree}
use ical_fs.Store.Deletion.{Deleted}
use ical_fs.Lookup.{get_node_by_path}
use ical_fs.Lookup.Chains.{Chain, get_node_by_path-Leads}
use ical_fs.Lookup.Stable.{Found}

module _ {M : HashMap} where
  -- A chain of names after the deletion was one before it.
  before-Chain :
      (node : Ptr) (file : Bytes) (s s' : Mount M) (p : Ptr) (names : List Bytes) (q : Ptr)
      → IsTree s.heap
      → Deleted node file s s'
      → Chain s'.heap p names q
      → Chain s.heap p names q
  before-Chain node file s s' p [] q t d c = c
  before-Chain node file s s' p (name ∷ names) q t d (c, m, n, rest) =
      let apart : c ≢ node = λ e. ground (
        arith,
        has-without c node (children_of s.heap p) (t.linked.distinct p),
        d.children_left p,
      ) in
      (
        c,
        ground (
          arith,
          has-without c node (children_of s.heap p) (t.linked.distinct p),
          d.children_left p,
        ),
        sym (d.names_same c apart) ∙ n,
        before-Chain node file s s' c names q t d rest,
      )

  -- It does not end at the deleted node.
  end_differs :
      (node : Ptr) (file : Bytes) (s s' : Mount M) (p : Ptr) (names : List Bytes) (q : Ptr)
      → IsTree s.heap
      → Deleted node file s s'
      → p ≢ node
      → Chain s'.heap p names q
      → q ≢ node
  end_differs node file s s' p [] q t d ne c = λ e. ne (c ∙ e)
  end_differs node file s s' p (name ∷ names) q t d ne (c, m, n, rest) =
      end_differs node file s s' c names q t d
        (λ e. ground (
          arith,
          has-without c node (children_of s.heap p) (t.linked.distinct p),
          d.children_left p,
        ))
        rest

  -- The path of a deleted node leads nowhere.
  pub lookup-Deleted :
      (path : Bytes) (node : Ptr) (file : Bytes) (s s' : Mount M)
      → Found s path node
      → node ≢ s.fuse_root
      → Deleted node file s s'
      → get_node_by_path path s' ≡ ok none s'
  lookup-Deleted path node file s s' f below d =
      let root : s'.fuse_root ≡ s.fuse_root = ap (λ (t : Mount M). t.fuse_root) d.rest_same in
      let (o, ran, leads) =
        get_node_by_path-Leads s' path d.is_tree
          (rw root (d.live_same s.fuse_root (λ e. below (sym e)) ∙ f.root_live)) f.short in
      elim (Option-cases o) [
        | inl missing ↦ rw missing at ran
        | inr (q, found) ↦
            let c = rw root at ((leads q).0 found) in
            let before =
              before-Chain node file s s' s.fuse_root (split_path path) q f.is_tree d c in
            let (o1, ran1, leads1) = get_node_by_path-Leads s path f.is_tree f.root_live f.short in
            let same : q ≡ node = cc ((leads1 q).1 before, (leads1 node).1 f.chain) in
            absurd (
              end_differs node file s s' s.fuse_root (split_path path) q f.is_tree d
                (λ e. below (sym e)) c same)
      ]
