-- ===== src/Handlers/Nodes/Replacing.antt =====
-- `fuse_rename` onto an entry: that is removed first, and then the name is free.
use ical_fs.Base.{
  ◌≡◌, refl, inl, inr, Bytes, Option, none, [], List, arith, Bool-cases, Returns, ok, and_then,
  ◌>>=◌,
}
use ical_fs.Path.{append_path, split_path}
use ical_fs.Tree.{Ptr, node_has_children}
use ical_fs.HashMap.{HashMap}
use ical_fs.Store.{AgendaEntry, Node, Mount, on_heap}
use ical_fs.Lookup.{get_node_by_path}
use ical_fs.Lookup.Stable.{get_node_by_path-Found}
use ical_fs.Lookup.Spec.{
  Namespace, Implements, same_names, same_names_iff, unlink, get_node_by_path-Implements,
}
use ical_fs.Lookup.Relocating.{move}
use ical_fs.Ical.{Ical}
use ical_fs.Entry.Stored.{load-live}
use ical_fs.Agenda.Delete.{delete_vdir_entry}
use ical_fs.Status.{done}
use ical_fs.Handlers.Nodes.{fuse_rename}
use ical_fs.Handlers.Nodes.Removal.{IsRemovable, Unlinked, delete_vdir_entry-Unlinked}
use ical_fs.Handlers.Nodes.Refining.{removed_unlinks}
use ical_fs.Handlers.Nodes.Renaming.{IsRenamable}
use ical_fs.Handlers.Nodes.Relocating.{fuse_rename-Implements}

-- Removing a list of names that leads nowhere changes nothing.
unlink-free :
    {M : HashMap} (s : Mount M) (N : Namespace) (names : List Bytes)
    → Implements s N
    → N names ≡ none
    → Implements s (unlink names N)
unlink-free s N names r free = record {
  is_tree = r.is_tree;
  root_live = r.root_live;
  root_top = r.root_top;
  agrees = λ ms q. elim (Bool-cases (same_names ms names)) [
    | inl same ↦ ground (arith, r.agrees ms q, free, (same_names_iff ms names).0 same)
    | inr other ↦ ground (arith, r.agrees ms q)
  ];
}

module _ ⦃I : Ical⦄ {M : HashMap} (s : Mount M) (N : Namespace) (r : Implements s N)
    (old p name : Bytes) where
  -- The effect of a rename in the abstract file system, to a name that is free.
  pub fuse_rename-moves :
      (parent child old_parent : Ptr) {n : Node} {e : AgendaEntry} {text : Bytes} {c : I.Component}
      {parent_ics old_ics : Option I.Component}
      → IsRenamable old p name parent child old_parent s n e text c parent_ics old_ics
      → let new = split_path (append_path p name) in
        Returns
          (λ st s'. (st ≡ done 0) × Implements s' (move (split_path old) new (unlink new N)))
          (fuse_rename old (append_path p name) s)
  fuse_rename-moves parent child old_parent h =
      let new = split_path (append_path p name) in
      let free : N new ≡ none =
        cc (get_node_by_path-Implements s N r (append_path p name) h.short, h.free) in
      fuse_rename-Implements s (unlink new N) (unlink-free s N new r free) old p name parent child
        old_parent h

  module _ (s1 : Mount M) (node : Ptr) {k : Node} {f : AgendaEntry} {gone : Bytes}
      (g : IsRemovable (append_path p name) node s k f gone) (leaf : k.children ≡ [])
      (ran : delete_vdir_entry node s ≡ ok (done 0) s1) where
    fuse_rename-again :
        get_node_by_path (append_path p name) s1 ≡ ok none s1
        → fuse_rename old (append_path p name) s ≡ fuse_rename old (append_path p name) s1
    unfolding fuse_rename node_has_children
    fuse_rename-again free =
        rw
          (
            fuse_rename,
            get_node_by_path-Found s (append_path p name) node g.found,
            ◌>>=◌,
            and_then,
            on_heap,
            load-live node s.heap g.stored.cell,
            leaf,
            ran,
            free,
          )
          refl

    -- An entry without children that stands at the new path is removed, and the other takes its
    -- place, if that can be done in the mount that is left.
    pub fuse_rename-replaces :
        (parent child old_parent : Ptr) {n : Node} {e : AgendaEntry} {text : Bytes}
        {c : I.Component} {parent_ics old_ics : Option I.Component}
        → IsRenamable old p name parent child old_parent s1 n e text c parent_ics old_ics
        → let new = split_path (append_path p name) in
          Returns
            (λ st s'. (st ≡ done 0) × Implements s' (move (split_path old) new (unlink new N)))
            (fuse_rename old (append_path p name) s)
    fuse_rename-replaces parent child old_parent h =
        let removed : Unlinked (append_path p name) node f s (done 0) s1 =
          rw ran at (delete_vdir_entry-Unlinked (append_path p name) node s g leaf) in
        let (z, r1) = removed_unlinks s N r (append_path p name) node g (done 0) s1 leaf removed in
        rw (fuse_rename-again h.free) (
          fuse_rename-Implements s1 (unlink (split_path (append_path p name)) N) r1 old p name
            parent child old_parent h)
