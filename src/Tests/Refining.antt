-- ===== src/Tests/Refining.antt =====
-- The handlers against the abstract file system, on the sample mount, with a library whose texts are
-- components with a uid.
use ical_fs.Base.{
  ◌≡◌, refl, codes, none, some, [], ◌∷◌, arith, Returns, ok, str_eq, strrchr, starts_with_str,
}
use ical_fs.Path.{append_path, split_path, get_file_extension, path_is_hidden}
use ical_fs.Path.Names.{directory}
use ical_fs.Tree.{load, node_has_children}
use ical_fs.Store.{AgendaEntry, Node, is_root_node, get_node_filename}
use ical_fs.Lookup.{get_node_by_path}
use ical_fs.Lookup.Stable.{Found}
use ical_fs.Lookup.Spec.{Namespace, Implements, namespace_of, namespace_of-Implements}
use ical_fs.Ical.Properties.{
  icalcomponent_set_file_extension, icalcomponent_set_custom_x_value,
  icalcomponent_set_unique_x_value,
}
use ical_fs.Entry.{node_is_directory}
use ical_fs.Entry.Stored.{Stored}
use ical_fs.Agenda.Create.{
  entry_file, entry_directory, create_vjournal_directory, create_vjournal_entry,
}
use ical_fs.Agenda.Create.Inserting.{at_root, at_entry}
use ical_fs.Handlers.Nodes.{fuse_create, fuse_mkdir}
use ical_fs.Handlers.Nodes.Created.{IsCreatable, Makes, next_uid}
use ical_fs.Handlers.Nodes.Creating.{fuse_create-Created, fuse_mkdir-Created}
use ical_fs.Tests.Calendar.{library, Comp, entry, calendar, plain, find_text, get_text}
use ical_fs.Ical.{Ical, uid, description}
use ical_fs.Tests.Sample.{mount, heap-IsTree}

abbrev pub known_component : Comp
known_component =
    calendar [] (entry (plain uid (codes "text") ∷ plain description (codes "text") ∷ []))

abbrev pub identified : Ical
identified = record library {
  from_string = λ s. some (calendar [] (entry (plain uid s ∷ plain description s ∷ [])));
}

pub text_uid : identified.get_uid known_component ≡ some (codes "text")
unfolding get_text find_text
text_uid = refl

abbrev pub names : Namespace
names = namespace_of mount heap-IsTree refl

pub mount-Implements : Implements mount names
mount-Implements = namespace_of-Implements mount heap-IsTree refl refl

abbrev root_node : Node
root_node = record { content = none; parent = none; children = 1 ∷ []; child_capacity = 4 }

pub root-Found : Found mount (directory []) 0
unfolding split_path
root-Found = record { is_tree = heap-IsTree; root_live = refl; short = ground arith; chain = refl }

pub c_free : get_node_by_path (codes "/c.md") mount ≡ ok none mount
unfolding get_node_by_path str_eq split_path load get_node_filename
c_free = refl

c_uid :
    identified.get_uid (create_vjournal_entry ⦃I = identified⦄ (next_uid mount) 7 (codes "c.md"))
    ≡ some (next_uid mount)
unfolding create_vjournal_entry get_text find_text icalcomponent_set_file_extension
    icalcomponent_set_custom_x_value str_eq get_file_extension strrchr
    icalcomponent_set_unique_x_value
c_uid = refl

d_uid :
    identified.get_uid
      (create_vjournal_directory ⦃I = identified⦄ (next_uid mount) 7 (codes "c.md"))
    ≡ some (next_uid mount)
unfolding create_vjournal_directory get_text find_text
d_uid = refl

new-IsCreatable : IsCreatable ⦃I = identified⦄ entry_file [] (codes "c.md") 0 mount root_node none
unfolding append_path starts_with_str split_path node_is_directory is_root_node node_has_children
    path_is_hidden
new-IsCreatable = record {
  is_name = ((λ e. cc), ground arith);
  rooted = refl;
  parent_found = root-Found;
  short = ground arith;
  visible = refl;
  free = c_free;
  parent_known = tt;
  readable = at_root refl refl;
  directory_test = refl;
  uid = c_uid;
  may = refl;
}

fuse_create-Created_example :
    Returns
      (Makes ⦃I = identified⦄ entry_file [] (codes "c.md") 0 none mount)
      (fuse_create ⦃I = identified⦄ (append_path [] (codes "c.md")) mount)
fuse_create-Created_example =
    fuse_create-Created ⦃I = identified⦄ [] (codes "c.md") 0 mount new-IsCreatable

-- A directory below a directory: "c.md" below the entry 1, when texts are read as directories.
work-Found : Found mount (directory (codes "/work")) 1
unfolding split_path
work-Found = record {
  is_tree = heap-IsTree;
  root_live = refl;
  short = ground arith;
  chain = (1, refl, refl, refl);
}

abbrev work_entry : AgendaEntry
work_entry = record { filename = codes "work"; filename_vdir = codes "w.ics" }

abbrev work_node : Node
work_node = record {
  content = some work_entry;
  parent = some 0;
  children = 2 ∷ 3 ∷ [];
  child_capacity = 4;
}

pub work-Stored : Stored mount 1 work_node work_entry (codes "text")
work-Stored = record { cell = refl; content = refl; file = refl }

below_free : get_node_by_path (codes "/work/c.md") mount ≡ ok none mount
unfolding get_node_by_path str_eq split_path load get_node_filename
below_free = refl

below-IsCreatable :
    IsCreatable ⦃I = identified⦄ entry_directory
      (codes "/work")
      (codes "c.md")
      1
      mount
      work_node
      (some known_component)
unfolding append_path starts_with_str split_path node_is_directory is_root_node node_has_children
    path_is_hidden
below-IsCreatable = record {
  is_name = ((λ e. cc), ground arith);
  rooted = refl;
  parent_found = work-Found;
  short = ground arith;
  visible = refl;
  free = below_free;
  parent_known = (codes "text", text_uid);
  readable = at_entry work_entry (codes "text") work-Stored;
  directory_test = refl;
  uid = d_uid;
  may = refl;
}

fuse_mkdir-Created_example :
    Returns
      (Makes ⦃I = identified⦄ entry_directory
        (codes "/work")
        (codes "c.md")
        1
        (some known_component)
        mount)
      (fuse_mkdir ⦃I = identified⦄ (append_path (codes "/work") (codes "c.md")) mount)
fuse_mkdir-Created_example =
    fuse_mkdir-Created ⦃I = identified⦄ (codes "/work") (codes "c.md") 1 mount below-IsCreatable
