-- ===== src/Handlers/Nodes.antt =====
-- `fuse_create`, `fuse_mkdir`, `fuse_unlink`, `fuse_rmdir` and `fuse_rename` of main.c.
pub mod Removal
pub mod Errors
pub mod Renaming
pub mod Created
pub mod Creating
pub mod Refining
pub mod Relocating
pub mod Replacing
pub mod Traces
use ical_fs.Base.{Bytes, none, some, ltb, length, if◌then◌else◌, Cmd, pure, ◌>>=◌}
use ical_fs.Path.{path_is_hidden}
use ical_fs.Tree.{load, node_has_children}
use ical_fs.HashMap.{HashMap}
use ical_fs.Store.{Mount, on_heap}
use ical_fs.Lookup.{get_node_by_path}
use ical_fs.Ical.{Ical}
use ical_fs.Entry.{get_icalcomponent_from_node, node_is_directory}
use ical_fs.Agenda.Create.{EntryType, entry_directory, entry_file, create_entry_from_fuse}
use ical_fs.Agenda.Delete.{delete_vdir_entry}
use ical_fs.Agenda.Rename.{do_agenda_rename}
use ical_fs.Status.{Status, error, is_done, enoent, eperm, eexist, eisdir, enotdir, enotempty, eio}

module _ ⦃I : Ical⦄ {M : HashMap} where
  -- `fuse_create` and `fuse_mkdir` differ in the type of the entry alone.
  unfoldable pub create_as : EntryType → Bytes → Cmd (Mount M) Status
  create_as etype filepath = if path_is_hidden filepath then pure (error eperm) else do
    found ← get_node_by_path filepath
    elim found [ some node ↦ pure (error eexist) | none ↦ create_entry_from_fuse filepath etype ]

  unfoldable pub fuse_mkdir : Bytes → Cmd (Mount M) Status
  unfolding create_as
  fuse_mkdir = create_as entry_directory

  unfoldable pub fuse_create : Bytes → Cmd (Mount M) Status
  unfolding create_as
  fuse_create = create_as entry_file

  unfoldable pub fuse_unlink : Bytes → Cmd (Mount M) Status
  fuse_unlink file = do
    found ← get_node_by_path file
    elim found [
      | none ↦ pure (error enoent)
      | some node ↦ do
        node_ics ← get_icalcomponent_from_node node
        n ← on_heap (load node)
        if node_is_directory n node_ics then pure (error eisdir) else delete_vdir_entry node
    ]

  unfoldable pub fuse_rmdir : Bytes → Cmd (Mount M) Status
  fuse_rmdir filepath = do
    found ← get_node_by_path filepath
    elim found [
      | none ↦ pure (error enoent)
      | some node ↦ do
        node_ics ← get_icalcomponent_from_node node
        n ← on_heap (load node)
        if node_is_directory n node_ics
            then (if ltb 0 (length n.children)
                then pure (error enotempty)
                else delete_vdir_entry node)
            else pure (error enotdir)
    ]

  -- A node at the new path is deleted first.
  unfoldable pub fuse_rename : Bytes → Bytes → Cmd (Mount M) Status
  fuse_rename old new = do
    existing ← get_node_by_path new
    elim existing [
      | none ↦ do_agenda_rename old new
      | some node ↦ do
        n ← on_heap (load node)
        if node_has_children n then pure (error enotempty) else do
          deleted ← delete_vdir_entry node
          if is_done deleted then do_agenda_rename old new else pure (error eio)
    ]
