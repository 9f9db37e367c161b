-- ===== src/Agenda/Rename/Finishing.antt =====
-- `rename_node` as a whole: where the node ends up, and what its file says.
use ical_fs.Base.{
  ◌≡◌, refl, ◌∙◌, inl, inr, Bytes, str_eq, true, false, Option, none, Cmd, some, Option-cases, ok,
  Returns, and_then, ◌>>=◌, ◌>>◌,
}
use ical_fs.Tree.{Ptr, move_node}
use ical_fs.Tree.Links.{live}
use ical_fs.Tree.Moves.{Linked}
use ical_fs.HashMap.{HashMap}
use ical_fs.Store.{AgendaEntry, Node, Mount, on_heap}
use ical_fs.Store.Siblings.{renamed, set_node_filename-renamed, cell_of-renamed}
use ical_fs.Ical.{Ical}
use ical_fs.Entry.{get_icalcomponent_from_node}
use ical_fs.Entry.Stored.{Stored, file_of, load-live, get_icalcomponent_from_node-Stored}
use ical_fs.Agenda.Create.{write_parent_child_components}
use ical_fs.Agenda.Rename.{rename_node, without_old_parent, old_parent_component}
use ical_fs.Agenda.Rename.Moving.{
  HasUid, unrelated, without_old_parent-unrelated, named_component, moved_text, names_written,
}
use ical_fs.Status.{Status, done}
use ical_fs.Agenda.Rename.Placing.{Placed, finishes, finishes_top}

old_parent_read :
    ⦃I : Ical⦄ {M : HashMap} (s : Mount M) (n : Node) (old_parent : Ptr)
    (old_ics : Option I.Component)
    → n.parent ≡ some old_parent
    → get_icalcomponent_from_node old_parent s ≡ ok old_ics s
    → old_parent_component n.parent s ≡ ok old_ics s
unfolding old_parent_component
old_parent_read s n old_parent old_ics up old = rw (up, old_parent_component) old

module _ ⦃I : Ical⦄ {M : HashMap} where
  -- The last part of `rename_node`: below a parent with a component, the entry is moved and written;
  -- else it is moved to the top level.
  abbrev settle : Option I.Component → Ptr → Ptr → I.Component → Cmd (Mount M) Status
  settle parent_ics parent child moved = elim parent_ics [
    | some ics ↦ λ s.
        and_then (on_heap (move_node parent child) s)
          (λ _ s1. and_then (write_parent_child_components ics child moved s1) (λ _. ok (done 0)))
    | none ↦ λ s. and_then (on_heap (move_node s.fuse_root child) s) (λ _. ok (done 0))
  ]

module _ ⦃I : Ical⦄ {M : HashMap} (name : Bytes) (parent child old_parent : Ptr) (s : Mount M)
    {n : Node} {e : AgendaEntry} {text : Bytes} (c : I.Component)
    (parent_ics old_ics : Option I.Component) where
  rename_node-settles :
      Stored s child n e text
      → I.from_string text ≡ some c
      → get_icalcomponent_from_node parent s ≡ ok parent_ics s
      → n.parent ≡ some old_parent
      → get_icalcomponent_from_node old_parent s ≡ ok old_ics s
      → HasUid old_ics
      → s.can_write (file_of s e) ≡ true
      → (F : Bytes → Option Bytes) × (rename_node name parent child s
          ≡ settle parent_ics parent child
              (unrelated old_ics (named_component s.clock name c))
              (record s { heap = renamed child name n e s.heap; files = F }))
        × (F (file_of s e) ≡ some (I.as_ical_string (named_component s.clock name c)))
        × ((path : Bytes) → str_eq path (file_of s e) ≡ false → F path ≡ s.files path)
  unfolding rename_node
  rename_node-settles t parsed parent_read up old known may =
      let s0 = record s { heap = renamed child name n e s.heap } in
      let t0 : Stored s0 child (record n { content = some (record e { filename = name }) })
          (record e { filename = name }) text =
        record { cell = cell_of-renamed child name s.heap n e; content = refl; file = t.file } in
      let (F, ran, left, others) = names_written name child s0 t0 refl may c (λ second s2.
        and_then (without_old_parent old_ics second s2) (settle parent_ics parent child)) in
      let s1 = record s { heap = renamed child name n e s.heap; files = F } in
      (
        F,
        rw
            (
              get_icalcomponent_from_node-Stored s child t,
              parsed,
              and_then,
              ◌>>=◌,
              ◌>>◌,
              parent_read,
              on_heap,
              load-live child s.heap t.cell,
              old_parent_read s n old_parent old_ics up old,
              set_node_filename-renamed s child name t.cell t.content,
            )
            (ran
              ∙ rw
                  (
                    without_old_parent-unrelated s1 old_ics (named_component s.clock name c) known,
                    and_then,
                  )
                  refl),
        left,
        others,
      )

  -- In a linked heap, an entry with a parent is renamed below a live node, the root or one whose
  -- component can be read, where the components of the entry and its old parent can be read, the old
  -- parent has a uid, if it has a component, and the file can be written: the run succeeds, the node
  -- is the last child there under the new name, all other names, places and files are as before, and
  -- the file has the text of `moved_text`.
  pub rename_node-Placed :
      Linked s.heap
      → live s.heap parent ≡ true
      → (parent_ics ≡ none → parent ≡ s.fuse_root)
      → Stored s child n e text
      → I.from_string text ≡ some c
      → get_icalcomponent_from_node parent s ≡ ok parent_ics s
      → n.parent ≡ some old_parent
      → get_icalcomponent_from_node old_parent s ≡ ok old_ics s
      → HasUid old_ics
      → s.can_write (file_of s e) ≡ true
      → Returns
          (λ r s'.
            (r ≡ done 0)
            × Placed name parent child
                (file_of s e)
                (moved_text s.clock name old_ics parent_ics c)
                s
                s')
          (rename_node name parent child s)
  unfolding moved_text
  rename_node-Placed l lp top t parsed parent_read up old known may =
      let (F, ran, left, others) = rename_node-settles t parsed parent_read up old known may in
      let written = I.as_ical_string (named_component s.clock name c) in
      rw ran (elim (Option-cases parent_ics) [
        | inl no_component ↦
            rw (no_component, top no_component)
              (finishes_top name s.fuse_root child s F written l (rw (top no_component) at lp)
                t.cell t.content left others)
        | inr (ics, there) ↦ rw there (
            finishes name parent child s F ics (unrelated old_ics (named_component s.clock name c))
              written l lp t.cell t.content may left others)
      ])
