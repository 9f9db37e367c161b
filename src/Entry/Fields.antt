-- ===== src/Entry/Fields.antt =====
-- fuse_node.c: the fields of an entry that the extended attributes show, read and changed.
use mathlib.Core.Option
use ical_fs.Base.{
  ℕ, Bytes, Bool, true, false, Option, none, some, List, [], ◌∷◌, ◌++◌, take, ◌==◌, if◌then◌else◌,
  Cmd, null_pointer, pure, fail, ◌>>=◌,
}
use ical_fs.Tree.{Ptr}
use ical_fs.HashMap.{HashMap}
use ical_fs.Store.{Mount}
use ical_fs.Ical.{Ical, PropertyKind, class, status, categories, dtstart}
use ical_fs.Ical.Codes.{PropertyClass, PropertyStatus, format_ical_class, format_ical_status}
use ical_fs.Ical.Properties.{is_kind}
use ical_fs.Entry.{
  get_icalcomponent_from_node, write_ical_file, first_of_kind, remove_first, change_inner,
}
use ical_fs.Status.{Status, done, error, einval}

module _ ⦃I : Ical⦄ where
  -- The categories in order, with a comma between two.
  pub join_categories : Bool → List I.Property → Bytes
  join_categories is_first [] = []
  join_categories is_first (p ∷ ps) =
      let category = I.categories_of p ++ join_categories false ps in
      let others = join_categories is_first ps in
      if is_kind (I.kind p) categories
      then (if is_first then category else b',' ∷ category)
      else others

  pub remove_all : PropertyKind → List I.Property → List I.Property
  remove_all k [] = []
  remove_all k (p ∷ ps) =
      let rest = remove_all k ps in if is_kind (I.kind p) k then rest else p ∷ rest

  -- `icalproperty_set_class` of the first class property; libical does nothing where that is `NULL`.
  pub set_first_class : PropertyClass → List I.Property → List I.Property
  set_first_class c [] = []
  set_first_class c (p ∷ ps) =
      let rest = set_first_class c ps in
      if is_kind (I.kind p) class then I.set_class p c ∷ ps else p ∷ rest

  unfoldable pub class_text : I.Component → Option Bytes
  unfolding first_of_kind is_kind
  class_text component = elim (first_of_kind class (I.properties (I.get_inner component))) [
    | none ↦ none
    | some p ↦ format_ical_class (I.class_of p)
  ]

  unfoldable pub status_text : I.Component → Option Bytes
  unfolding first_of_kind is_kind
  status_text component = elim (first_of_kind status (I.properties (I.get_inner component))) [
    | none ↦ none
    | some p ↦ format_ical_status (I.status_of p)
  ]

  -- `rstrndup(ar, new_categories, s)`; no property is added for no bytes.
  unfoldable pub with_categories : Bytes → ℕ → I.Component → I.Component
  unfolding remove_all is_kind
  with_categories new_categories s component =
      let cleared = change_inner (remove_all categories) component in
      if s == 0
      then cleared
      else change_inner (λ ps. ps ++ I.new_categories (take s new_categories) ∷ []) cleared

  unfoldable pub without_dtstart : I.Component → I.Component
  unfolding remove_first is_kind
  without_dtstart component =
      I.with_properties component (remove_first dtstart (I.properties component))

module _ ⦃I : Ical⦄ {M : HashMap} where
  -- Where the component is `NULL` a change reports success and changes nothing.
  unfoldable pub change_component : Ptr → (I.Component → I.Component) → Cmd (Mount M) Status
  change_component node f = do
    component ← get_icalcomponent_from_node node
    elim component [ none ↦ pure (done 0) | some c ↦ write_ical_file node (f c) ]

  -- The component is not tested for `NULL`, and the write that follows reads through it.
  unfoldable pub component_of : Ptr → Cmd (Mount M) I.Component
  component_of node = do
    component ← get_icalcomponent_from_node node
    elim component [ none ↦ fail null_pointer | some c ↦ pure c ]

  unfoldable pub set_dtstart : Bytes → Ptr → Cmd (Mount M) Status
  set_dtstart dtstart_c node = elim (I.time_from_string dtstart_c) [
    | none ↦ pure (error einval)
    | some time ↦ do c ← component_of node; write_ical_file node (I.set_dtstart c time)
  ]

  -- libical has the null time for a component that is `NULL`.
  unfoldable pub get_dtstart : Ptr → Cmd (Mount M) (Option Bytes)
  get_dtstart node = do
    comp ← get_icalcomponent_from_node node
    pure (Option.map I.time_as_string (elim comp [ none ↦ none | some c ↦ I.get_dtstart c ]))

  unfoldable pub clear_dtstart : Ptr → Cmd (Mount M) Status
  unfolding without_dtstart
  clear_dtstart node = do c ← component_of node; write_ical_file node (without_dtstart c)

  unfoldable pub get_node_categories : Ptr → Cmd (Mount M) (Option Bytes)
  unfolding join_categories is_kind
  get_node_categories node = do
    component ← get_icalcomponent_from_node node
    pure (Option.map (λ c. join_categories true (I.properties (I.get_inner c))) component)

  unfoldable pub set_node_categories : Ptr → Bytes → ℕ → Cmd (Mount M) Status
  unfolding change_component with_categories
  set_node_categories node new_categories s =
      change_component node (with_categories new_categories s)

  unfoldable pub get_node_class : Ptr → Cmd (Mount M) (Option Bytes)
  unfolding class_text
  get_node_class node = do
    component ← get_icalcomponent_from_node node
    pure (elim component [ none ↦ none | some c ↦ class_text c ])

  unfoldable pub get_node_status : Ptr → Cmd (Mount M) (Option Bytes)
  unfolding status_text
  get_node_status node = do
    component ← get_icalcomponent_from_node node
    pure (elim component [ none ↦ none | some c ↦ status_text c ])

  unfoldable pub delete_node_class : Ptr → Cmd (Mount M) Status
  unfolding change_component remove_first is_kind change_inner
  delete_node_class node = change_component node (change_inner (remove_first class))

  unfoldable pub set_node_class : Ptr → PropertyClass → Cmd (Mount M) Status
  unfolding change_component set_first_class is_kind change_inner
  set_node_class node new_class = change_component node (change_inner (set_first_class new_class))

  unfoldable pub set_node_status : Ptr → PropertyStatus → Cmd (Mount M) Status
  unfolding change_component
  set_node_status node new_status = change_component node (λ c. I.set_status c new_status)
