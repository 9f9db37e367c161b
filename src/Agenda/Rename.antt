-- ===== src/Agenda/Rename.antt =====
-- `do_agenda_rename` of fuse_node.c.
pub mod Moving
pub mod Placing
pub mod Finishing
use ical_fs.Base.{Bytes, Option, none, some, Cmd, assertion, null_pointer, pure, fail, ◌>>=◌, ◌>>◌}
use ical_fs.Path.{get_filename, get_parent_path}
use ical_fs.Tree.{Ptr, load, move_node}
use ical_fs.HashMap.{HashMap}
use ical_fs.Store.{Mount, on_heap, set_node_filename}
use ical_fs.Lookup.{get_node_by_path}
use ical_fs.Ical.{Ical}
use ical_fs.Ical.Properties.{remove_parent_child_relationship_from_component}
use ical_fs.Entry.{get_icalcomponent_from_node}
use ical_fs.Entry.Naming.{update_summary, update_node_file_extension}
use ical_fs.Agenda.Create.{write_parent_child_components}
use ical_fs.Status.{Status, done, error, einval}

module _ ⦃I : Ical⦄ {M : HashMap} where
  -- `assert(p)`
  abbrev pub asserted : {A : Type 0} → Option A → Cmd (Mount M) A
  asserted none = fail assertion
  asserted (some a) = pure a

  -- The component of the parent that a node had: `get_icalcomponent_from_node` dereferences it.
  pub old_parent_component : Option Ptr → Cmd (Mount M) (Option I.Component)
  old_parent_component none = fail null_pointer
  old_parent_component (some parent) = get_icalcomponent_from_node parent

  unfoldable pub without_old_parent : Option I.Component → I.Component → Cmd (Mount M) I.Component
  without_old_parent none child_ics = pure child_ics
  without_old_parent (some old_parent_ics) child_ics =
      elim (remove_parent_child_relationship_from_component old_parent_ics child_ics) [
        | none ↦ fail null_pointer
        | some moved_ics ↦ pure moved_ics
      ]

  -- The name is changed and written, then the relation to the old parent is taken out of the
  -- component, and only below a parent with a component is the entry written again.
  unfoldable pub rename_node : Bytes → Ptr → Ptr → Cmd (Mount M) Status
  unfolding old_parent_component without_old_parent
  rename_node new_filename new_parent_node child_node = do
    read ← get_icalcomponent_from_node child_node
    child_ics ← asserted read
    new_parent_ics ← get_icalcomponent_from_node new_parent_node
    child ← on_heap (load child_node)
    old_parent_ics ← old_parent_component child.parent
    set_node_filename child_node new_filename
    (named, _) ← update_summary child_ics child_node
    (extended, _) ← update_node_file_extension named child_node
    moved_ics ← without_old_parent old_parent_ics extended
    elim new_parent_ics [
      | some parent_ics ↦ do
        on_heap (move_node new_parent_node child_node)
        write_parent_child_components parent_ics child_node moved_ics
        pure (done 0)
      | none ↦ do (λ s. on_heap (move_node s.fuse_root child_node) s); pure (done 0)
    ]

  unfoldable pub do_agenda_rename : Bytes → Bytes → Cmd (Mount M) Status
  unfolding rename_node
  do_agenda_rename old new = elim (get_parent_path new) [
    | none ↦ fail null_pointer
    | some parent_path ↦ do
      found ← get_node_by_path parent_path
      elim found [
        | none ↦ pure (error einval)
        | some new_parent_node ↦ do
          child ← get_node_by_path old
          child_node ← asserted child
          rename_node (get_filename new) new_parent_node child_node
      ]
  ]
