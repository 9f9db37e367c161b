-- ===== src/Handlers/Nodes/Relocating.antt =====
-- `fuse_rename` moves a node, with all that is below it, in the abstract file system.
use ical_fs.Base.{
  ◌≡◌, sym, ap, ◌∙◌, ◌≢◌, inl, inr, Bytes, true, Option, none, [], ◌∷◌, arith, Returns,
  Returns-mono, ◌==◌, Bool-cases,
}
use ical_fs.Path.{append_path, split_path}
use ical_fs.Tree.{Ptr}
use ical_fs.Tree.Links.{live, without, children_of, parent_of}
use ical_fs.Tree.Moves.{has-append, has-without}
use ical_fs.HashMap.{HashMap}
use ical_fs.Store.{AgendaEntry, Node, Mount}
use ical_fs.Store.Siblings.{IsTree}
use ical_fs.Lookup.Chains.{Chain, get_node_by_path-Leads}
use ical_fs.Lookup.Spec.{Namespace, Implements}
use ical_fs.Lookup.Around.{Displaced}
use ical_fs.Lookup.Relocating.{move, move-Agrees}
use ical_fs.Ical.{Ical}
use ical_fs.Agenda.Rename.Placing.{Placed}
use ical_fs.Status.{done}
use ical_fs.Handlers.Nodes.{fuse_rename}
use ical_fs.Handlers.Nodes.Renaming.{IsRenamable, fuse_rename-Placed}

module _ {M : HashMap} (name : Bytes) (parent child : Ptr) (s s' : Mount M) {file text : Bytes}
    (p : Placed name parent child file text s s') (t : IsTree s.heap) where
  Placed-Displaced : Displaced child s.heap s'.heap
  Placed-Displaced = record {
    places = λ x c ne. elim (Bool-cases (x == parent)) [
      | inl here ↦
          rw
            (
              p.children_placed x,
              here,
              has-append c (without child (children_of s.heap x)) (child ∷ []),
              has-without c child (children_of s.heap x) (t.linked.distinct x),
            )
            (ground arith)
      | inr away ↦
          rw
            (
              p.children_placed x,
              away,
              has-without c child (children_of s.heap x) (t.linked.distinct x),
            )
            (ground arith)
    ];
    names = p.names_same;
  }

module _ ⦃I : Ical⦄ {M : HashMap} (s : Mount M) (N : Namespace) (r : Implements s N)
    (old p name : Bytes) (parent child old_parent : Ptr) {n : Node} {e : AgendaEntry} {text : Bytes}
    {c : I.Component} {parent_ics old_ics : Option I.Component} where
  -- Let a mount implement a table of names, and an entry be renamed to a name that is not taken,
  -- below the root or an entry that is not below it, as IsRenamable says.
  -- Renaming succeeds, and the mount then implements the table in which all that stood at and below
  -- the old path stands at and below the new one.
  pub fuse_rename-Implements :
      IsRenamable old p name parent child old_parent s n e text c parent_ics old_ics
      → Returns
          (λ st s'.
            (st ≡ done 0)
            × Implements s' (move (split_path old) (split_path (append_path p name)) N))
          (fuse_rename old (append_path p name) s)
  fuse_rename-Implements h =
      Returns-mono _ _ (fuse_rename old (append_path p name) s)
        (fuse_rename-Placed old p name parent child old_parent s h)
        λ st s' (z, placed, t, found).
          let root : s'.fuse_root ≡ s.fuse_root =
            ap (λ (x : Mount M). x.fuse_root) placed.rest_same in
          let below : s.fuse_root ≢ child =
            λ same. ground (arith, r.root_top, h.stored.cell, h.up) in
          let top : parent_of s'.heap s.fuse_root ≡ none =
            ground (arith, placed.parent_placed s.fuse_root, r.root_top) in
          let alive : live s'.heap s.fuse_root ≡ true =
            placed.live_same s.fuse_root ∙ r.root_live in
          let (o, ran, leads) =
            get_node_by_path-Leads s' (append_path p name) t (rw root alive) h.short in
          let arrived : Chain s'.heap s.fuse_root (split_path (append_path p name)) child =
            rw (sym root) ((leads child).0 (cc (ran, found))) in
          (
            z,
            record {
              is_tree = t;
              root_live = rw root alive;
              root_top = rw root top;
              agrees = rw root (
                  move-Agrees s s' N r child (split_path old) (split_path (append_path p name))
                    (Placed-Displaced name parent child s s' placed r.is_tree) t top alive below
                    ((r.agrees (split_path old) child).1 h.child_found.chain) arrived);
            },
          )
