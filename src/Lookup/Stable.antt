-- ===== src/Lookup/Stable.antt =====
-- A lookup by path changes nothing, and depends on the nodes alone.
use ical_fs.Base.{
  ◌≡◌, refl, ◌∙◌, ◌≤◌, Bytes, true, Option, none, some, List, [], ◌∷◌, arith, length, Cmd, Run, ok,
  fault, pure, and_then,
}
use ical_fs.Path.{split_path}
use ical_fs.Tree.{Ptr, load}
use ical_fs.Tree.Links.{live}
use ical_fs.HashMap.{HashMap}
use ical_fs.Store.{Mount, on_heap}
use ical_fs.Store.Siblings.{IsTree}
use ical_fs.Lookup.{max_segments, find_child, walk, get_node_by_path}
use ical_fs.Lookup.Chains.{Chain, get_node_by_path-Leads}

-- A run that returns leaves the state as it was.
abbrev pub ReadOnly : {S A : Type 0} → Cmd S A → Type 0
ReadOnly {S} {A} m = (s : S) (a : A) (s' : S) → m s ≡ ok a s' → s' ≡ s

pub ReadOnly-bind :
    {S A B : Type 0} (m : Cmd S A) (k : A → Cmd S B)
    → ReadOnly m
    → ((a : A) → ReadOnly (k a))
    → ReadOnly (λ s. and_then (m s) k)
ReadOnly-bind {S} {A} {B} m k hm hk s b s' = go (m s) refl
  where
    go : (r : Run S A) → m s ≡ r → and_then r k ≡ ok b s' → s' ≡ s
    go (ok a t) e h = hk a t b s' h ∙ hm s a t e
    go (fault f) e h = cc

module _ {M : HashMap} where
  find_child-ReadOnly : (name : Bytes) (cs : List Ptr) → ReadOnly (find_child {M = M} name cs)
  unfolding find_child load
  find_child-ReadOnly name [] s a s' e = cc
  find_child-ReadOnly name (c ∷ cs) s a s' e = ground (arith, find_child-ReadOnly name cs s a s')

  walk-ReadOnly : (p : Ptr) (names : List Bytes) → ReadOnly (walk {M = M} p names)
  unfolding walk load
  walk-ReadOnly p [] = λ s a s' e. cc
  walk-ReadOnly p (name ∷ names) =
      ReadOnly-bind (on_heap (load p)) _ (λ s a s' e. ground arith)
        λ n. ReadOnly-bind (find_child name n.children) _ (find_child-ReadOnly name n.children) λ o.
          elim o
            as (λ o.
              ReadOnly {S = Mount M} {A = Option Ptr}
                (elim o [ none ↦ pure none | some c ↦ walk {M = M} c names ])) [
                  | none ↦ λ s a s' e. cc
                  | some c ↦ walk-ReadOnly c names
                ]

  pub get_node_by_path-ReadOnly : (path : Bytes) → ReadOnly (get_node_by_path {M = M} path)
  unfolding get_node_by_path
  get_node_by_path-ReadOnly path s a s' e =
      ground (arith, walk-ReadOnly s.fuse_root (split_path path) s a s')

  -- The path leads from the root to the node `q`, in a tree.
  pub record Found (s : Mount M) (path : Bytes) (q : Ptr) : Type 0 where
    pub is_tree : IsTree s.heap
    pub root_live : live s.heap s.fuse_root ≡ true
    pub short : length (split_path path) ≤ max_segments
    pub chain : Chain s.heap s.fuse_root (split_path path) q

  pub get_node_by_path-Found :
      (s : Mount M) (path : Bytes) (q : Ptr)
      → Found s path q
      → get_node_by_path path s ≡ ok (some q) s
  get_node_by_path-Found s path q f =
      let (o, ran, leads) = get_node_by_path-Leads s path f.is_tree f.root_live f.short in
      rw ((leads q).1 f.chain) at ran
