-- ===== src/Tests/Handling.antt =====
-- The handlers, on the sample mount with the small calendar library.
use ical_fs.Base.{
  ◌+◌, ◌-◌, ◌≡◌, refl, ◌≢◌, codes, Bytes, List, inl, inr, Bool-cases, str_eq_iff, none, some, [],
  ◌∷◌, ◌++◌, true, false, arith, length, Lacks, Returns, ok, str_eq,
}
use Prim.Native.Nat.{min}
use ical_fs.Path.{path_is_hidden, split_path}
use ical_fs.Tree.{node_has_children}
use ical_fs.Ical.{Ical, description}
use ical_fs.Ical.Properties.{
  is_directory_property, is_directory_component, has_child_relation, properties_of, is_x_named,
  is_kind, find_x_value, icalcomponent_get_uniq_x_value,
}
use ical_fs.Store.{AgendaEntry, Node, Mount, delete_fuse_node, is_root_node}
use ical_fs.Store.Deletion.{Deleted, delete_fuse_node-Deleted}
use ical_fs.Lookup.Stable.{Found}
use ical_fs.Entry.{node_is_directory}
use ical_fs.Entry.Stored.{Stored, file_of, with_file}
use ical_fs.Status.{done}
use ical_fs.Handlers.Content.{c_string, rstrins, read_bytes, fuse_read, fuse_write}
use ical_fs.Handlers.Content.Reading.{read_bytes_chunks, read_bytes-rstrins}
use ical_fs.Handlers.Content.Writing.{
  KeepsDescription, written_text, fuse_write-reports, fuse_read-fuse_write,
}
use ical_fs.Handlers.Nodes.{fuse_unlink, fuse_rmdir}
use ical_fs.Handlers.Nodes.Removal.{
  IsRemovable, Unlinked, fuse_unlink-Unlinked, fuse_rmdir-Unlinked,
}
use ical_fs.Handlers.Nodes.Errors.{KeepsOnError, removal-KeepsOnError}
use ical_fs.Handlers.Events.{Event, handle_vdir_event}
use ical_fs.Handlers.Events.Lost.{handle_vdir_event-deleted}
use ical_fs.Tests.Calendar.{
  library, Prop, custom, plain, Comp, entry, calendar, find_text, get_text,
}
use ical_fs.Tests.Sample.{table, mount, heap-IsTree}

read_bytes_chunks_example :
    (length (read_bytes (codes "abcdef") 2 1) ≡ min 2 (length (codes "abcdef") - 1))
    × (read_bytes (codes "abcdef") (2 + 3) 1
        ≡ read_bytes (codes "abcdef") 2 1 ++ read_bytes (codes "abcdef") 3 (1 + 2))
read_bytes_chunks_example = read_bytes_chunks (codes "abcdef") 2 3 1

read_bytes-rstrins_example :
    let new = c_string (rstrins (codes "abcdef") 2 (codes "xy")) in
    (read_bytes new 2 2 ≡ codes "xy")
    × (read_bytes new 2 0 ≡ read_bytes (codes "abcdef") 2 0)
    × (length new ≡ 2 + 2)
read_bytes-rstrins_example =
    read_bytes-rstrins (codes "abcdef") (codes "xy") 2 (ground arith) (ground arith) (ground arith)

delete_fuse_node-Deleted_example :
    Returns (λ _ s'. Deleted 2 (codes "a.ics") mount s') (delete_fuse_node 2 mount)
delete_fuse_node-Deleted_example = delete_fuse_node-Deleted 2 mount heap-IsTree refl refl

pub a-Found : Found mount (codes "/work/a.md") 2
unfolding split_path
a-Found = record {
  is_tree = heap-IsTree;
  root_live = refl;
  short = ground arith;
  chain = (1, refl, refl, (2, refl, refl, refl));
}

abbrev pub a_entry : AgendaEntry
a_entry = record { filename = codes "a.md"; filename_vdir = codes "a.ics" }

abbrev pub a_node : Node
a_node = record { content = some a_entry; parent = some 1; children = []; child_capacity = 0 }

pub a-Stored : Stored mount 2 a_node a_entry (codes "text")
a-Stored = record { cell = refl; content = refl; file = refl }

pub a-IsRemovable : IsRemovable (codes "/work/a.md") 2 mount a_node a_entry (codes "text")
a-IsRemovable = record { found = a-Found; stored = a-Stored; root_empty = refl; may = refl }

pub a_file : node_is_directory ⦃I = library⦄ a_node (library.from_string (codes "text")) ≡ false
unfolding node_is_directory is_root_node node_has_children is_directory_component has_child_relation
    properties_of icalcomponent_get_uniq_x_value find_x_value is_x_named is_kind
a_file = refl

-- The library whose texts are all read as directories.
abbrev directories : Ical
directories = record library {
  from_string = λ s. some (calendar [] (entry (custom is_directory_property (codes "YES") ∷ [])));
}

a_directory :
    node_is_directory ⦃I = directories⦄ a_node (directories.from_string (codes "text")) ≡ true
unfolding node_is_directory is_root_node node_has_children is_directory_component has_child_relation
    properties_of icalcomponent_get_uniq_x_value find_x_value is_x_named is_kind str_eq
a_directory = refl

fuse_rmdir-Unlinked_example :
    Returns
      (Unlinked (codes "/work/a.md") 2 a_entry mount)
      (fuse_rmdir ⦃I = directories⦄ (codes "/work/a.md") mount)
fuse_rmdir-Unlinked_example =
    fuse_rmdir-Unlinked ⦃I = directories⦄ (codes "/work/a.md") 2 mount a-IsRemovable a_directory
      refl

fuse_unlink-Unlinked_example :
    Returns
      (Unlinked (codes "/work/a.md") 2 a_entry mount)
      (fuse_unlink ⦃I = library⦄ (codes "/work/a.md") mount)
fuse_unlink-Unlinked_example =
    fuse_unlink-Unlinked ⦃I = library⦄ (codes "/work/a.md") 2 mount a-IsRemovable a_file

removal-KeepsOnError_example :
    KeepsOnError (fuse_unlink ⦃I = library⦄ {M = table} (codes "/work/a.md"))
    × KeepsOnError (fuse_rmdir ⦃I = library⦄ {M = table} (codes "/work/a.md"))
removal-KeepsOnError_example = removal-KeepsOnError ⦃I = library⦄ {M = table} (codes "/work/a.md")

abbrev pub text_component : Comp
text_component = calendar [] (entry (plain description (codes "text") ∷ []))

get-set : (c : Comp) (t : Bytes) → library.get_description (library.set_description c t) ≡ some t
unfolding find_text get_text
get-set (entry ps) t = refl
get-set (calendar os c) t = get-set c t

inner-set :
    (c : Comp) (t : Bytes)
    → library.inner c ≢ none
    → library.inner (library.set_description c t) ≢ none
inner-set (entry ps) t h = absurd (h refl)
inner-set (calendar os c) t h = λ e. cc

get-outer :
    (c : Comp) (ps : List Prop)
    → library.inner c ≢ none
    → library.get_description (library.with_properties c ps) ≡ library.get_description c
unfolding find_text get_text
get-outer (entry qs) ps h = absurd (h refl)
get-outer (calendar os c) ps h = refl

get-inner : (c : Comp) → library.get_description (library.get_inner c) ≡ library.get_description c
unfolding find_text get_text
get-inner (entry ps) = refl
get-inner (calendar os c) = get-inner c

library-KeepsDescription : KeepsDescription ⦃I = library⦄
unfolding find_text get_text
library-KeepsDescription = record {
  get-set = get-set;
  inner-set = inner-set;
  get-outer = get-outer;
  get-inner = get-inner;
  reread = λ c t d ne clean. (calendar [] (entry (plain description t ∷ [])), rw d refl, refl);
}

fuse_write-reports_example :
    fuse_write ⦃I = library⦄ (codes "/work/a.md") (codes "xy") 2 mount
    ≡ ok (done 2) (
        with_file
          (file_of mount a_entry)
          (written_text ⦃I = library⦄ 7 text_component (codes "xy") 2)
          mount)
fuse_write-reports_example =
    fuse_write-reports ⦃I = library⦄ (codes "/work/a.md") 2 mount text_component (codes "xy") 2
      (unfold path_is_hidden in refl) a-Found a-Stored refl

fuse_read-fuse_write_example :
    (s' : Mount table) × (fuse_write ⦃I = library⦄ (codes "/work/a.md") (codes "xy") 2 mount
      ≡ ok (done 2) s')
    × (fuse_read ⦃I = library⦄ (codes "/work/a.md") 2 2 s' ≡ ok (done 2, codes "xy") s')
unfolding find_text get_text
fuse_read-fuse_write_example =
    fuse_read-fuse_write ⦃I = library⦄ (codes "/work/a.md") 2 mount text_component (codes "xy") 2
      library-KeepsDescription (unfold path_is_hidden in refl) a-Found a-Stored refl refl (λ e. cc)
      (ground arith) (ground arith) (λ e. cc) (ground arith)

abbrev deletion : Event
deletion = record { name = codes "a.ics"; in_delete = true; in_modify = false; in_create = false }

slashless : (k : Bytes) → table.get mount.entries_vdir k ≢ none → Lacks b'/' k
slashless k h = elim (Bool-cases (str_eq k (codes "a.ics"))) [
  | inl same ↦ rw ((str_eq_iff k (codes "a.ics")).0 same) (ground arith)
  | inr other ↦ absurd (h (rw other refl))
]

handle_vdir_event-deleted_example : handle_vdir_event ⦃I = library⦄ deletion mount ≡ ok tt mount
handle_vdir_event-deleted_example =
    handle_vdir_event-deleted ⦃I = library⦄ mount slashless deletion refl
