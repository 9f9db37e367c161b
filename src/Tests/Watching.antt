-- ===== src/Tests/Watching.antt =====
-- An event says that the file of an entry has been made, which names the entry of another file.
use ical_fs.Base.{
  ◌≡◌, refl, inl, inr, codes, str_eq, strcasecmp_eq, starts_with_str, true, false, some, [], ◌∷◌,
  ◌==◌, arith, if◌then◌else◌, Bool-cases, Returns,
}
use ical_fs.Ical.{summary}
use ical_fs.Ical.Properties.{
  get_parent_uid, find_parent, is_kind, properties_of, is_directory_component, has_child_relation,
  icalcomponent_get_uniq_x_value, icalcomponent_get_file_extension, find_x_value, is_x_named,
}
use ical_fs.Store.{AgendaEntry, Mount}
use ical_fs.Agenda.Sync.Ready.{Ready, place_for, uid_in, component_in}
use ical_fs.Agenda.Sync.Updating.{Updated}
use ical_fs.Handlers.Events.{Event, handle_vdir_event}
use ical_fs.Base.{strstr}
use ical_fs.Handlers.Events.Seen.{Seen, handle_vdir_event-Updated}
use ical_fs.Agenda.Sync.Reading.{read_entry}
use ical_fs.Path.{append_path}
use ical_fs.Entry.Naming.{filename_of_component, shown_name}
use ical_fs.Tests.Calendar.{plain, entry, calendar, find_text, get_text}
use ical_fs.Tests.Loading.{relations, relations-KeepsParent}
use ical_fs.Tests.Table.{
  pairs, pairs-IsLawful, small_mount, small_heap-IsTree, small_mount-IsIndexed,
}

abbrev changed_mount : Mount pairs
changed_mount = record small_mount {
  files = λ p. some (if str_eq p (codes "/v/b.ics") then codes "Pa" else []);
}

changed_mount-Ready : Ready ⦃I = relations⦄ changed_mount
unfolding str_eq append_path
changed_mount-Ready = record {
  is_tree = small_heap-IsTree;
  is_indexed = record {
    sound = small_mount-IsIndexed.sound;
    complete = small_mount-IsIndexed.complete;
  };
  root_live = refl;
  root_top = refl;
  root_empty = refl;
  readable = λ p e c. elim (Bool-cases (p == 1)) [
    | inl here ↦
        let same : p ≡ 1 = ground arith in
        rw same (calendar [] (entry (plain summary (codes "t") ∷ [])), refl)
    | inr other ↦ ground arith
  ];
}

abbrev creation : Event
creation = record { name = codes "b.ics"; in_delete = false; in_modify = false; in_create = true }

creation-Seen : Seen creation
unfolding strstr starts_with_str
creation-Seen = record { calendar = refl; kept = refl; changed = refl; plain = ground arith }

abbrev new_entry : AgendaEntry
new_entry = record { filename = codes "t.md"; filename_vdir = codes "b.ics" }

new_entry_read : read_entry ⦃I = relations⦄ changed_mount (codes "b.ics") ≡ some new_entry
unfolding read_entry append_path str_eq filename_of_component shown_name is_directory_component
    has_child_relation properties_of icalcomponent_get_uniq_x_value icalcomponent_get_file_extension
    find_x_value is_x_named is_kind find_text get_text strcasecmp_eq
new_entry_read = refl

below_first :
    place_for pairs 0 changed_mount.entries_vdir
      (uid_in ⦃I = relations⦄ (component_in ⦃I = relations⦄ changed_mount (some (codes "b.ics"))))
    ≡ some 1
unfolding append_path str_eq get_parent_uid find_parent is_kind properties_of strcasecmp_eq
below_first = refl

handle_vdir_event-Updated_example :
    Returns
      (λ _ s'. Updated ⦃I = relations⦄ (codes "b.ics") 1 changed_mount s')
      (handle_vdir_event ⦃I = relations⦄ creation changed_mount)
handle_vdir_event-Updated_example =
    handle_vdir_event-Updated ⦃I = relations⦄ changed_mount creation creation-Seen pairs-IsLawful
      relations-KeepsParent changed_mount-Ready (λ path. refl) new_entry 1 new_entry_read
      below_first
