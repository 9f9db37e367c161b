-- ===== src/Handlers/Events/Seen.antt =====
-- The events of the watcher that say that a file was made or changed.
use ical_fs.Base.{
  ◌≡◌, refl, Bytes, codes, true, false, none, some, ◌||◌, Lacks, ok, Returns, Returns-and_then,
  and_then,
}
use ical_fs.Path.{append_path}
use ical_fs.Path.Names.{append_path_parts}
use ical_fs.Tree.{Ptr}
use ical_fs.HashMap.{HashMap, IsLawful}
use ical_fs.Store.{AgendaEntry, Mount}
use ical_fs.Ical.{Ical}
use ical_fs.Agenda.Sync.{update_or_create_fuse_entry_from_vdir}
use ical_fs.Agenda.Sync.Reading.{read_entry}
use ical_fs.Agenda.Sync.Marking.{KeepsParent}
use ical_fs.Agenda.Sync.Ready.{place_for, uid_in, component_in, Ready}
use ical_fs.Agenda.Sync.Updating.{
  Updated, update-unreadable, update_or_create_fuse_entry_from_vdir-Updated,
}
use ical_fs.Handlers.Events.{Event, handle_vdir_event}
use ical_fs.Base.{strstr}

-- The name is one of a calendar file, and the file was not deleted.
pub record Seen (event : Event) : Type 0 where
  pub calendar : strstr event.name (codes ".ics") ≡ true
  pub kept : event.in_delete ≡ false
  pub changed : (event.in_modify || event.in_create) ≡ true
  pub plain : Lacks b'/' event.name

module _ ⦃I : Ical⦄ {M : HashMap} (s : Mount M) (event : Event) (seen : Seen event) where
  handle_vdir_event-update :
      handle_vdir_event event s
      ≡ and_then
          (update_or_create_fuse_entry_from_vdir (append_path s.vdir event.name) s)
          (λ _. ok tt)
  unfolding handle_vdir_event
  handle_vdir_event-update = rw (seen.calendar, seen.kept, seen.changed) refl

  -- A file that is not read as an entry changes nothing.
  pub handle_vdir_event-unreadable :
      Ready s → read_entry s event.name ≡ none → handle_vdir_event event s ≡ ok tt s
  handle_vdir_event-unreadable r nothing =
      rw
        (
          handle_vdir_event-update,
          update-unreadable s event.name (append_path s.vdir event.name) seen.plain
              ((append_path_parts s.vdir event.name seen.plain).0) nothing,
          and_then,
        )
        refl

  -- In a ready mount, with a lawful table and files that can all be written, and given what
  -- KeepsParent relies on: the event that a calendar file was made or changed, which is read as an
  -- entry and names no parent, or one whose file has a node, is handled without a fault. The mount is
  -- ready again; the file has a node, its own if it had one, below that parent or below the root; the
  -- places of other nodes and the other names in the index are as before.
  pub handle_vdir_event-Updated :
      IsLawful M
      → KeepsParent
      → Ready s
      → ((path : Bytes) → s.can_write path ≡ true)
      → (entry : AgendaEntry) (parent : Ptr) → read_entry s event.name ≡ some entry
      → place_for M s.fuse_root s.entries_vdir (uid_in (component_in s (some event.name)))
        ≡ some parent
      → Returns (λ _ s'. Updated event.name parent s s') (handle_vdir_event event s)
  handle_vdir_event-Updated L K r may entry parent read place = rw handle_vdir_event-update (
      Returns-and_then _ _ (update_or_create_fuse_entry_from_vdir (append_path s.vdir event.name) s)
        (λ _. ok tt)
        (update_or_create_fuse_entry_from_vdir-Updated L K s event.name
          (append_path s.vdir event.name) r may seen.plain
          ((append_path_parts s.vdir event.name seen.plain).0) entry parent read place)
        λ _ s' (z, u). u)
