-- ===== src/Agenda/Sync.antt =====
-- Changes that come from the vdir: `update_or_create_fuse_entry_from_vdir` and `load_root_node_tree`
-- of fuse_node.c.
pub mod Reading
pub mod Filtering
pub mod Loading
pub mod Marking
pub mod Ready
pub mod Ensuring
pub mod Lowering
pub mod Placing
pub mod Settling
pub mod Rooted
pub mod Mounting
pub mod Upserting
pub mod Updating
use ical_fs.Base.{
  Bytes, codes, Bool, ◌&&◌, strstr, [], ◌∷◌, true, false, Option, none, some, List, if◌then◌else◌,
  Cmd, assertion, null_pointer, pure, fail, ok, ◌>>=◌, ◌>>◌, each,
}
use ical_fs.Path.{get_filename}
use ical_fs.Tree.{Ptr, create_tree_node}
use ical_fs.HashMap.{HashMap}
use ical_fs.Store.{
  Mount, on_heap, create_fuse_node, upsert_fuse_node, move_fuse_node, add_fuse_child,
  get_fuse_node_from_vdir_name,
}
use ical_fs.Lookup.{get_node_by_uuid}
use ical_fs.Ical.{Ical}
use ical_fs.Ical.Properties.{
  get_parent_uid, is_directory_component, icalcomponent_mark_as_directory,
}
use ical_fs.Entry.{get_icalcomponent_from_node, write_ical_file}
use ical_fs.Entry.Naming.{load_agenda_entry_from_ics_file}
use ical_fs.Status.{Status, done, error, eio, is_done}

-- `struct dirent`: the name, and whether `d_type` is DT_REG.
pub record DirEntry : Type 0 where
  pub d_name : Bytes
  pub is_regular : Bool

-- The test of the first loop of `load_root_node_tree`.
unfoldable pub is_ics : DirEntry → Bool
unfolding strstr
is_ics entry = entry.is_regular && strstr entry.d_name (codes ".ics")

-- The names of the files that pass the test.
unfoldable pub ics_names : List DirEntry → List Bytes
unfolding is_ics
ics_names [] = []
ics_names (entry ∷ entries) =
    let rest = ics_names entries in if is_ics entry then entry.d_name ∷ rest else rest

module _ ⦃I : Ical⦄ {M : HashMap} where
  -- A parent that is not marked as a directory is marked: `assert(write_ical_file(...) == 0)`. For a
  -- component that is `NULL` the mark's own `assert` fails.
  unfoldable pub ensure_directory : Ptr → Cmd (Mount M) (Unit {0})
  ensure_directory parent = do
    pic ← get_icalcomponent_from_node parent
    elim pic [
      | none ↦ fail assertion
      | some ic ↦ elim (is_directory_component ic) [
        | true ↦ pure tt
        | false ↦ do
          written ← write_ical_file parent (icalcomponent_mark_as_directory ic)
          if is_done written then pure tt else fail assertion
      ]
    ]

  pub parent_uid_of : Ptr → Cmd (Mount M) (Option Bytes)
  parent_uid_of node = do
    ic ← get_icalcomponent_from_node node
    pure (elim ic [ none ↦ none | some c ↦ get_parent_uid c ])

  -- The parent that the entry names is moved to without a test for `NULL`.
  unfoldable pub update_or_create_fuse_entry_from_vdir : Bytes → Cmd (Mount M) Status
  unfolding parent_uid_of
  update_or_create_fuse_entry_from_vdir filepath_vdir = do
    updated_entry ← load_agenda_entry_from_ics_file (get_filename filepath_vdir)
    elim updated_entry [
      | none ↦ pure (error eio)
      | some entry ↦ do
        node ← upsert_fuse_node entry
        parent_uid ← parent_uid_of node
        elim parent_uid [
          | none ↦ do (λ s. move_fuse_node s.fuse_root node s); pure (done 0)
          | some uid ↦ do
            found ← get_node_by_uuid uid
            elim found [
              | none ↦ fail null_pointer
              | some new_parent ↦ do
                move_fuse_node new_parent node
                ensure_directory new_parent
                pure (done 0)
            ]
        ]
    ]

  pub load_file : Bytes → Cmd (Mount M) (Unit {0})
  load_file name = do
    entry ← load_agenda_entry_from_ics_file name
    elim entry [ none ↦ pure tt | some e ↦ do create_fuse_node e; pure tt ]

  -- The first loop: an entry for each regular file of the directory that has ".ics" in its name and
  -- can be read as an entry.
  pub load_entry : DirEntry → Cmd (Mount M) (Unit {0})
  unfolding load_file
  load_entry entry = if is_ics entry then load_file entry.d_name else pure tt

  -- The second loop: a node takes its place below the parent that it names, or below the root. One
  -- whose parent is missing is left out of the tree.
  pub place_entry : Bytes → Cmd (Mount M) (Unit {0})
  unfolding parent_uid_of
  place_entry vdirname = do
    found ← get_fuse_node_from_vdir_name vdirname
    elim found [
      | none ↦ fail null_pointer
      | some child ↦ do
        parent_uid ← parent_uid_of child
        elim parent_uid [
          | none ↦ do (λ s. add_fuse_child s.fuse_root child s); pure tt
          | some uid ↦ do
            parent ← get_node_by_uuid uid
            elim parent [
              | none ↦ pure tt
              | some p ↦ do ensure_directory p; move_fuse_node p child; pure tt
            ]
        ]
    ]

  -- The argument is what `readdir` gives of the directory, or none where it cannot be opened.
  unfoldable pub load_root_node_tree : Option (List DirEntry) → Cmd (Mount M) (Unit {0})
  unfolding load_entry place_entry
  load_root_node_tree dir = do
    (λ s. ok tt (record s { entries_vdir = M.empty }))
    root ← on_heap (create_tree_node none)
    (λ s. ok tt (record s { fuse_root = root }))
    elim dir [
      | none ↦ pure tt
      | some entries ↦ do
        each load_entry entries
        λ s. each place_entry (M.get_keys s.entries_vdir) s
    ]
