-- ===== src/Agenda/Create.antt =====
-- New entries: `create_vjournal_directory` and `create_vjournal_entry` of ical_extra.c, and
-- `create_entry_from_fuse` with `insert_fuse_node_to_path` of fuse_node.c.
pub mod Inserting
use ical_fs.Base.{
  ℕ, suc, Bytes, codes, true, false, Option, none, some, [], ◌∷◌, ◌++◌, Cmd, null_pointer, pure,
  fail, ok, ◌>>=◌, ◌>>◌, starts_with_str,
}
use ical_fs.Path.{without_file_extension, get_file_extension, get_filename, get_parent_path}
use ical_fs.Tree.{Ptr, load, add_child}
use ical_fs.HashMap.{HashMap}
use ical_fs.Store.{Mount, on_heap, create_fuse_node}
use ical_fs.Lookup.{get_node_by_path}
use ical_fs.Ical.{Ical}
use ical_fs.Ical.Codes.{private, draft, final}
use ical_fs.Ical.Properties.{
  is_directory_property, icalcomponent_set_file_extension,
  set_parent_child_relationship_to_component,
}
use ical_fs.Entry.{get_icalcomponent_from_node, write_ical_file, node_is_directory}
use ical_fs.Status.{Status, done, error, einval, enoent, enotdir}

pub data EntryType : Type 0 where
  entry_directory entry_file : EntryType

module _ ⦃I : Ical⦄ where
  abbrev add_property : I.Property → I.Component → I.Component
  add_property p c = I.with_properties c (I.properties c ++ p ∷ [])

  new_calendar : I.Component
  new_calendar =
      add_property (I.new_prodid (codes "-//caldavfs//EN"))
        (add_property (I.new_version (codes "2.0")) I.new_vcalendar)

  unfoldable pub create_vjournal_directory : Bytes → ℕ → Bytes → I.Component
  unfolding new_calendar
  create_vjournal_directory id now summary =
      let journal = add_property (I.new_uid id) I.new_vjournal in
      let journal = add_property (I.new_dtstamp now) journal in
      let journal = add_property (I.new_summary summary) journal in
      let journal = I.set_status (add_property (I.new_class private) journal) final in
      I.add_component new_calendar
        (add_property (I.new_x is_directory_property (codes "YES")) journal)

  -- The class is added twice.
  unfoldable pub create_vjournal_entry : Bytes → ℕ → Bytes → I.Component
  unfolding new_calendar
  create_vjournal_entry id now summary =
      let journal = add_property (I.new_uid id) I.new_vjournal in
      let journal = add_property (I.new_class private) journal in
      let journal = add_property (I.new_dtstamp now) journal in
      let journal = I.set_status (add_property (I.new_class private) journal) draft in
      let journal = add_property (I.new_summary (without_file_extension summary)) journal in
      let journal =
        icalcomponent_set_file_extension journal
          (elim (get_file_extension summary) [ none ↦ [] | some ext ↦ ext ]) in
      I.add_component new_calendar (add_property (I.new_description []) journal)

module _ {M : HashMap} where
  unfoldable pub create_new_unique_ics_uid : Cmd (Mount M) Bytes
  create_new_unique_ics_uid s =
      ok (s.uuid s.uuid_count ++ codes "-caldavfs") (record s { uuid_count = suc s.uuid_count })

module _ ⦃I : Ical⦄ {M : HashMap} where
  unfoldable pub write_parent_child_components :
      I.Component → Ptr → I.Component → Cmd (Mount M) Status
  write_parent_child_components iparent child ichild =
      write_ical_file child (set_parent_child_relationship_to_component iparent ichild)

  -- The write below a node that has a component, and the write below the root, whose result is
  -- not looked at.
  pub write_below : Option I.Component → Ptr → I.Component → Cmd (Mount M) Status
  write_below none child child_ics = do write_ical_file child child_ics; pure (done 0)
  write_below (some parent_ics) child child_ics =
      write_parent_child_components parent_ics child child_ics

  -- A path without a parent has a `NULL` for it, which the walk is handed.
  unfoldable pub insert_fuse_node_to_path : Bytes → Ptr → I.Component → Cmd (Mount M) Status
  unfolding write_below
  insert_fuse_node_to_path fuse_path child_node child_ics = elim (get_parent_path fuse_path) [
    | none ↦ fail null_pointer
    | some parent_path ↦ do
      found ← get_node_by_path parent_path
      elim found [
        | none ↦ pure (error enoent)
        | some parent_node ↦ do
          parent_ics ← get_icalcomponent_from_node parent_node
          n ← on_heap (load parent_node)
          elim (node_is_directory n parent_ics) [
            | false ↦ pure (error enotdir)
            | true ↦ do
              status ← write_below parent_ics child_node child_ics
              on_heap (add_child parent_node child_node)
              pure status
          ]
      ]
  ]

  unfoldable pub new_component : EntryType → Bytes → Cmd (Mount M) I.Component
  new_component entry_directory filename = do
    id ← create_new_unique_ics_uid
    λ s. ok (create_vjournal_directory id s.clock filename) s
  new_component entry_file filename = do
    id ← create_new_unique_ics_uid
    λ s. ok (create_vjournal_entry id s.clock filename) s

  -- The name of the file is formatted from the uid of the component, which it has.
  unfoldable pub create_entry_from_fuse : Bytes → EntryType → Cmd (Mount M) Status
  unfolding new_component create_new_unique_ics_uid
  create_entry_from_fuse fuse_path etype = elim (starts_with_str fuse_path (codes "/")) [
    | false ↦ pure (error einval)
    | true ↦ do
      component ← new_component etype (get_filename fuse_path)
      elim (I.get_uid component) [
        | none ↦ fail null_pointer
        | some uid ↦ do
          node ←
              create_fuse_node
                (record { filename = get_filename fuse_path; filename_vdir = uid ++ codes ".ics" })
          insert_fuse_node_to_path fuse_path node component
      ]
  ]
