-- ===== src/Agenda/Sync/Placing.antt =====
-- A step of the second loop of `load_root_node_tree`: an entry takes its place below the parent that
-- it names.
use ical_fs.Base.{
  ◌≡◌, refl, sym, ap, ◌∙◌, inl, inr, Bytes, codes, true, none, some, ◌++◌, arith, ◌==◌,
  Option-cases, ok, Returns, Returns-and_then, and_then, ◌>>=◌, ◌>>◌, if◌then◌else◌,
}
use ical_fs.Tree.{Ptr}
use ical_fs.Tree.Links.{content_of, parent_of}
use ical_fs.HashMap.{HashMap}
use ical_fs.Store.{AgendaEntry, Mount, add_fuse_child, move_fuse_node, get_fuse_node_from_vdir_name}
use ical_fs.Store.Names.{vdir_name_of}
use ical_fs.Store.Children.{add_fuse_child-Joined}
use ical_fs.Store.Relocation.{IsTree-UniqueBut, move_fuse_node-Relocated}
use ical_fs.Lookup.{get_node_by_uuid}
use ical_fs.Ical.{Ical}
use ical_fs.Agenda.Sync.{ensure_directory, place_entry}
use ical_fs.Agenda.Sync.Marking.{KeepsParent}
use ical_fs.Agenda.Sync.Lowering.{Below, Joined-Below, Relocated-Below, Below-Ready, Below-named}
use ical_fs.Agenda.Sync.Ready.{Ready-Standing, named_parent, place_of, Ready, parent_uid_of-named}
use ical_fs.Agenda.Sync.Ensuring.{Ensured, Ensured-refl, ensure_directory-Ensured}

-- The node is in its place; entries name the parents that they named and are the same in the index,
-- and no other node has another parent.
pub record Placed ⦃I : Ical⦄ {M : HashMap} (child : Ptr) (s s' : Mount M) : Type 0 where
  pub ready : Ready s'
  pub named_same : (x : Ptr) → named_parent s' x ≡ named_parent s x
  pub files_same : (x : Ptr) → vdir_name_of s'.heap x ≡ vdir_name_of s.heap x
  pub parent_placed :
      (x : Ptr)
      → parent_of s'.heap x ≡ (if x == child then place_of s child else parent_of s.heap x)
  pub rest_same : s' ≡ record s { heap = s'.heap; files = s'.files }

-- A change of files and then of the place.
Below-Placed :
    ⦃I : Ical⦄ {M : HashMap} (s s1 s' : Mount M) (parent child : Ptr) (e : AgendaEntry)
    → Ensured s s1
    → Below parent child s1 s'
    → content_of s.heap child ≡ some e
    → place_of s child ≡ some parent
    → Placed child s s'
Below-Placed {M = M} s s1 s' parent child e d b entry place =
    let heap_same : s1.heap ≡ s.heap = ap (λ (u : Mount M). u.heap) d.rest_same in
    record {
      ready =
          Below-Ready parent child s1 s' e (ap (λ h. content_of h child) heap_same ∙ entry)
            (Ready-Standing s1 d.ready) b;
      named_same = λ x. Below-named parent child s1 s' b x ∙ d.named_same x;
      files_same = λ x. b.files_same x ∙ ap (λ h. vdir_name_of h x) heap_same;
      parent_placed = λ x. rw (b.parent_set x, heap_same, place) refl;
      rest_same =
          b.rest_same
          ∙ ap (λ (u : Mount M). record u { heap = s'.heap }) d.rest_same
          ∙ ap (λ f. record s { heap = s'.heap; files = f })
              (sym (ap (λ (u : Mount M). u.files) b.rest_same));
    }

module _ ⦃I : Ical⦄ {M : HashMap} (s : Mount M) (name : Bytes) (child : Ptr) (e : AgendaEntry)
    (K : KeepsParent) (r : Ready s) (may : (path : Bytes) → s.can_write path ≡ true)
    (found : M.get s.entries_vdir name ≡ some child) (entry : content_of s.heap child ≡ some e)
    (free : parent_of s.heap child ≡ none) where
  nowhere : (x : Ptr) → parent_of s.heap x ≡ (if x == child then none else parent_of s.heap x)
  nowhere x = ground (arith, free)

  pub place_entry-Placed : Returns (λ _ s'. Placed child s s') (place_entry name s)
  unfolding place_entry get_fuse_node_from_vdir_name get_node_by_uuid
  place_entry-Placed = elim (Option-cases (named_parent s child)) [
    | inl none_named ↦
        rw
          (
            place_entry,
            get_fuse_node_from_vdir_name,
            found,
            ◌>>=◌,
            ◌>>◌,
            and_then,
            parent_uid_of-named s child e (Ready-Standing s r) entry,
            none_named,
          )
          (Returns-and_then _ _ (add_fuse_child s.fuse_root child s) (λ _. ok tt)
            (add_fuse_child-Joined s.fuse_root child s r.is_tree r.root_live entry free)
            λ _ s' (z, j).
              Below-Placed s s s' s.fuse_root child e (Ensured-refl s r)
                (Joined-Below s.fuse_root child s s' j) entry (rw (none_named) refl))
    | inr (uid, named) ↦ elim (Option-cases (M.get s.entries_vdir (uid ++ codes ".ics"))) [
      | inl missing ↦
          rw
            (
              place_entry,
              get_fuse_node_from_vdir_name,
              found,
              ◌>>=◌,
              ◌>>◌,
              and_then,
              parent_uid_of-named s child e (Ready-Standing s r) entry,
              named,
              missing,
            )
            (record {
              ready = r;
              named_same = λ x. refl;
              files_same = λ x. refl;
              parent_placed = λ x. rw (named, missing) (nowhere x);
              rest_same = refl;
            })
      | inr (parent, there) ↦
          rw
            (
              place_entry,
              get_fuse_node_from_vdir_name,
              found,
              ◌>>=◌,
              ◌>>◌,
              and_then,
              parent_uid_of-named s child e (Ready-Standing s r) entry,
              named,
              there,
            )
            (Returns-and_then _ _ (ensure_directory parent s) _
              (ensure_directory-Ensured s parent
                (r.is_indexed.sound (uid ++ codes ".ics") parent there).0 K r may
                (r.is_indexed.sound (uid ++ codes ".ics") parent there).1)
              λ _ s1 d.
                let heap_same : s1.heap ≡ s.heap = ap (λ (u : Mount M). u.heap) d.rest_same in
                let up = (r.is_indexed.sound (uid ++ codes ".ics") parent there).1 in
                Returns-and_then _ _ (move_fuse_node parent child s1) (λ _. ok tt)
                  (move_fuse_node-Relocated parent child s1 d.ready.is_tree.linked
                    (IsTree-UniqueBut child s1.heap d.ready.is_tree) (rw heap_same (ground arith))
                    (ap (λ h. content_of h child) heap_same ∙ entry))
                  λ _ s' (z, j).
                    Below-Placed s s1 s' parent child e d (Relocated-Below parent child s1 s' j)
                      entry (rw (named, there) refl))
    ]
  ]
