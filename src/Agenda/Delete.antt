-- ===== src/Agenda/Delete.antt =====
-- `delete_vdir_entry` and `delete_from_vdir_path` of fuse_node.c.
use ical_fs.Base.{
  Bytes, Bool, true, false, ◌&&◌, none, some, ltb, length, str_eq, is_some, if◌then◌else◌, Cmd,
  assertion, pure, fail, ok, ◌>>=◌, ◌>>◌,
}
use ical_fs.Tree.{Ptr, load}
use ical_fs.HashMap.{HashMap}
use ical_fs.Store.{Mount, on_heap, get_vdir_filepath, delete_fuse_node}
use ical_fs.Lookup.{get_node_by_uuid}
use ical_fs.Status.{Status, done, error, eio, enoent}

module _ {M : HashMap} where
  -- `remove(3)`: whether the file was there and could be removed.
  unfoldable pub remove_file : Bytes → Cmd (Mount M) Bool
  remove_file path s =
      if is_some (s.files path) && s.can_remove path
      then ok true (record s { files = λ p. if str_eq p path then none else s.files p })
      else ok false s

  unfoldable pub delete_vdir_entry : Ptr → Cmd (Mount M) Status
  delete_vdir_entry node = do
    path ← get_vdir_filepath node
    removed ← remove_file path
    elim removed [ false ↦ pure (error eio) | true ↦ do delete_fuse_node node; pure (done 0) ]

  -- `assert(node->child_count > 0)`
  unfoldable pub delete_from_vdir_path : Bytes → Cmd (Mount M) Status
  delete_from_vdir_path filepath = do
    found ← get_node_by_uuid filepath
    elim found [
      | none ↦ pure (error enoent)
      | some node ↦ do
        n ← on_heap (load node)
        elim (ltb 0 (length n.children)) [
          | false ↦ fail assertion
          | true ↦ do delete_fuse_node node; pure (done 0)
        ]
    ]
