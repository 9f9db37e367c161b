-- ===== src/Entry.antt =====
-- fuse_node.c: the calendar entry behind a node. An entry is read from its file, changed as a
-- component in memory, and written back.
pub mod Fields
pub mod Naming
pub mod Stored
pub mod Prepared
pub mod XValues
use ical_fs.Base.{
  ℕ, ◌+◌, ◌-◌, Bytes, codes, str_eq, Bool, true, false, not, ◌&&◌, ◌||◌, Option, none, some, List,
  [], ◌∷◌, ◌++◌, length, take, drop, leb, ltb, ◌==◌, if◌then◌else◌, Cmd, assertion, null_pointer,
  pure, fail, ok, fault, and_then, ◌>>=◌, ◌>>◌,
}
use ical_fs.Path.{append_path}
use ical_fs.Tree.{Ptr, load, node_has_children}
use ical_fs.HashMap.{HashMap}
use ical_fs.Store.{Mount, Node, on_heap, is_root_node, get_vdir_filepath}
use ical_fs.Ical.{Ical, PropertyKind, last_modified, description}
use ical_fs.Ical.Properties.{is_kind, is_string, is_directory_component}
use ical_fs.Status.{Status, done, error, eio}

module _ {M : HashMap} where
  unfoldable pub write_to_file : Bytes → Bytes → Cmd (Mount M) Status
  write_to_file filepath content s =
      if s.can_write filepath
      then ok (done 0)
          (record s { files = λ p. if str_eq p filepath then some content else s.files p })
      else ok (error eio) s

module _ ⦃I : Ical⦄ where
  -- The first property of the kind is changed, or a new one is added.
  pub set_first_modified : ℕ → List I.Property → List I.Property
  set_first_modified now [] = I.new_lastmodified now ∷ []
  set_first_modified now (p ∷ ps) =
      let rest = set_first_modified now ps in
      if is_kind (I.kind p) last_modified then I.set_lastmodified p now ∷ ps else p ∷ rest

  pub first_of_kind : PropertyKind → List I.Property → Option I.Property
  first_of_kind k [] = none
  first_of_kind k (p ∷ ps) =
      let rest = first_of_kind k ps in if is_kind (I.kind p) k then some p else rest

  -- `icalcomponent_remove_property` of the first property of the kind.
  unfoldable pub remove_first : PropertyKind → List I.Property → List I.Property
  remove_first k [] = []
  remove_first k (p ∷ ps) =
      let rest = remove_first k ps in if is_kind (I.kind p) k then ps else p ∷ rest

  unfoldable pub change_inner : (List I.Property → List I.Property) → I.Component → I.Component
  change_inner f ic =
      let inner = I.get_inner ic in
      I.with_get_inner ic (I.with_properties inner (f (I.properties inner)))

  -- What `write_ical_file` does to the component before it prints it: the time of the change, on the
  -- outer component, and no empty description.
  unfoldable pub prepared : ℕ → I.Component → I.Component
  unfolding set_first_modified remove_first is_kind change_inner
  prepared now ic =
      let stamped = I.with_properties ic (set_first_modified now (I.properties ic)) in
      if is_string (I.get_description (I.get_inner stamped)) []
      then change_inner (remove_first description) stamped
      else stamped

  -- The root and a node with children are directories; of any other node the component decides.
  unfoldable pub node_is_directory : Node → Option I.Component → Bool
  node_is_directory n ic =
      if is_root_node n || node_has_children n
      then true
      else elim ic [ none ↦ false | some c ↦ is_directory_component c ]

  unfoldable pub icalcomponent_get_description_size : I.Component → ℕ
  icalcomponent_get_description_size component = elim (I.get_description component) [
    | none ↦ 0
    | some text ↦ length text
  ]

module _ ⦃I : Ical⦄ {M : HashMap} where
  -- `assert(stat(filename, &st) == 0)`, and `NULL` where libical cannot parse the text.
  unfoldable pub parse_ics_file : Bytes → Cmd (Mount M) (Option I.Component)
  parse_ics_file filename s = elim (s.files filename) [
    | none ↦ fault assertion
    | some text ↦ ok (I.from_string text) s
  ]

  -- The root has no file.
  unfoldable pub get_icalcomponent_from_node : Ptr → Cmd (Mount M) (Option I.Component)
  get_icalcomponent_from_node node = do
    n ← on_heap (load node)
    elim (is_root_node n) [
      | true ↦ pure none
      | false ↦ do path ← get_vdir_filepath node; parse_ics_file path
    ]

  unfoldable pub write_ical_file : Ptr → I.Component → Cmd (Mount M) Status
  write_ical_file node ic = do
    path ← get_vdir_filepath node
    λ s. write_to_file path (I.as_ical_string (prepared s.clock ic)) s
