-- ===== src/Handlers/Events.antt =====
-- `handle_vdir_event` of main.c: what the watcher of the vdir does with one event of inotify.
pub mod Lost
pub mod Seen
use ical_fs.Base.{Bytes, codes, Bool, ◌||◌, List, strstr, if◌then◌else◌, Cmd, ok, and_then, each}
use ical_fs.Path.{append_path}
use ical_fs.HashMap.{HashMap}
use ical_fs.Store.{Mount}
use ical_fs.Ical.{Ical}
use ical_fs.Agenda.Delete.{delete_from_vdir_path}
use ical_fs.Agenda.Sync.{update_or_create_fuse_entry_from_vdir}

-- The masks that the watch asks for; an event has one of them at least.
pub record Event : Type 0 where
  pub name : Bytes
  pub in_delete : Bool
  pub in_modify : Bool
  pub in_create : Bool

module _ ⦃I : Ical⦄ {M : HashMap} where
  -- The result of the operation is not looked at.
  unfoldable pub handle_vdir_event : Event → Cmd (Mount M) (Unit {0})
  unfolding strstr
  handle_vdir_event event s =
      let full_path = append_path s.vdir event.name in
      if strstr event.name (codes ".ics")
      then (if event.in_delete
          then and_then (delete_from_vdir_path full_path s) (λ _. ok tt)
          else if event.in_modify || event.in_create
          then and_then (update_or_create_fuse_entry_from_vdir full_path s) (λ _. ok tt)
          else ok tt s)
      else ok tt s

  -- The loop over the events of one read.
  unfoldable pub handle_vdir_events : List Event → Cmd (Mount M) (Unit {0})
  handle_vdir_events events = each handle_vdir_event events
