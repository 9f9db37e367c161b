-- ===== src/Handlers/Nodes/Traces.antt =====
-- Sequences of requests that make, remove and move entries.
use ical_fs.Base.{◌≡◌, Bytes, true, false, Option, List, [], ◌∷◌, Cmd, ok}
use ical_fs.Path.{append_path, split_path}
use ical_fs.Tree.{Ptr}
use ical_fs.HashMap.{HashMap}
use ical_fs.Store.{AgendaEntry, Node, Mount}
use ical_fs.Lookup.Spec.{Namespace, link, unlink}
use ical_fs.Lookup.Relocating.{move}
use ical_fs.Ical.{Ical}
use ical_fs.Entry.{node_is_directory}
use ical_fs.Agenda.Create.{entry_file, entry_directory}
use ical_fs.Status.{Status, done}
use ical_fs.Handlers.Nodes.{fuse_create, fuse_mkdir, fuse_unlink, fuse_rmdir, fuse_rename}
use ical_fs.Handlers.Nodes.Created.{IsCreatable}
use ical_fs.Handlers.Nodes.Removal.{IsRemovable}
use ical_fs.Handlers.Nodes.Renaming.{IsRenamable}
use ical_fs.Agenda.Delete.{delete_vdir_entry}

-- A request of the kernel.
pub data Request : Type 0 where
  create mkdir unlink_file rmdir : Bytes → Request
  rename : Bytes → Bytes → Request

module _ ⦃I : Ical⦄ {M : HashMap} where
  abbrev pub handle : Request → Cmd (Mount M) Status
  handle (create path) = fuse_create path
  handle (mkdir path) = fuse_mkdir path
  handle (unlink_file path) = fuse_unlink path
  handle (rmdir path) = fuse_rmdir path
  handle (rename old new) = fuse_rename old new

-- What the request does in the abstract file system; a new node has the next address. A rename takes
-- away what stands at the new path and moves what stands at and below the old.
abbrev pub effect : Request → Ptr → Namespace → Namespace
effect (create path) node N = link (split_path path) node N
effect (mkdir path) node N = link (split_path path) node N
effect (unlink_file path) node N = unlink (split_path path) N
effect (rmdir path) node N = unlink (split_path path) N
effect (rename old new) node N = move (split_path old) (split_path new) (unlink (split_path new) N)

module _ ⦃I : Ical⦄ {M : HashMap} where
  -- The requests of which it is shown that they are carried out in a mount: to create or make a free
  -- name, not starting with a dot, below a directory; to unlink what is no directory; to remove a
  -- directory without children; to rename an entry to a free name below the root or below an entry
  -- that is not below it; and to rename it to the name of an entry without children, if that could be
  -- done to a free name once that entry has been removed. The records say what files have to be
  -- readable, writable and removable, and which components to have a uid.
  pub data Allowed (s : Mount M) : Request → Type 0 where
    may_create :
        {p name : Bytes} {parent : Ptr} {m : Node} {parent_ics : Option I.Component}
        → IsCreatable entry_file p name parent s m parent_ics
        → Allowed s (create (append_path p name))
    may_mkdir :
        {p name : Bytes} {parent : Ptr} {m : Node} {parent_ics : Option I.Component}
        → IsCreatable entry_directory p name parent s m parent_ics
        → Allowed s (mkdir (append_path p name))
    may_unlink :
        {path : Bytes} {node : Ptr} {n : Node} {e : AgendaEntry} {text : Bytes}
        → IsRemovable path node s n e text
        → node_is_directory n (I.from_string text) ≡ false
        → Allowed s (unlink_file path)
    may_rmdir :
        {path : Bytes} {node : Ptr} {n : Node} {e : AgendaEntry} {text : Bytes}
        → IsRemovable path node s n e text
        → node_is_directory n (I.from_string text) ≡ true
        → n.children ≡ []
        → Allowed s (rmdir path)
    may_rename :
        {old p name : Bytes} {parent child old_parent : Ptr} {n : Node} {e : AgendaEntry}
        {text : Bytes} {c : I.Component} {parent_ics old_ics : Option I.Component}
        → IsRenamable old p name parent child old_parent s n e text c parent_ics old_ics
        → Allowed s (rename old (append_path p name))
    may_replace :
        {old p name : Bytes} {parent child old_parent : Ptr} {n : Node} {e : AgendaEntry}
        {text : Bytes} {c : I.Component} {parent_ics old_ics : Option I.Component} {s1 : Mount M}
        {node : Ptr} {k : Node} {f : AgendaEntry} {gone : Bytes}
        → IsRemovable (append_path p name) node s k f gone
        → k.children ≡ []
        → delete_vdir_entry node s ≡ ok (done 0) s1
        → IsRenamable old p name parent child old_parent s1 n e text c parent_ics old_ics
        → Allowed s (rename old (append_path p name))

  -- The mount and the abstract file system take the same requests, one handler at a time.
  pub data Trace : Mount M → Namespace → List Request → Mount M → Namespace → Type 0 where
    stay : {s : Mount M} {N : Namespace} → Trace s N [] s N
    step :
        {s s1 s2 : Mount M} {N N2 : Namespace} {r : Request} {rs : List Request} {st : Status}
        → Allowed s r
        → handle r s ≡ ok st s1
        → Trace s1 (effect r s.heap.next N) rs s2 N2
        → Trace s N (r ∷ rs) s2 N2
