-- ===== src/Ical/Properties.antt =====
-- ical_extra.c: the properties that the program keeps in the inner component of an entry.
pub mod Unique
pub mod Attributes
pub mod Parents
use mathlib.Core.Option
use ical_fs.Base.{
  ℕ, ◌-◌, Bytes, codes, str_eq, Bool, true, false, not, ◌&&◌, ◌||◌, Option, none, some, List, [],
  ◌∷◌, ◌++◌, length, drop, leb, ltb, ◌==◌, ◌+◌, if◌then◌else◌, starts_with_str, strcasecmp_eq,
}
use ical_fs.Ical.{Ical, PropertyKind, x, related_to, RelType, parent, child}
use ical_fs.Ical.Codes.{PropertyClass, PropertyStatus}

abbrev pub is_directory_property : Bytes
is_directory_property = codes "X-CALDAVFS-ISDIRECTORY"

abbrev pub file_extension_property : Bytes
file_extension_property = codes "X-CALDAVFS-FILEEXT"

abbrev pub custom_property_prefix : Bytes
custom_property_prefix = codes "X-CALDAVFS-CUSTOM-"

abbrev pub custom_property_prefix_len : ℕ
custom_property_prefix_len = 18

unfoldable pub is_kind : PropertyKind → PropertyKind → Bool
is_kind x x = true
is_kind related_to related_to = true
is_kind PropertyKind.last_modified PropertyKind.last_modified = true
is_kind PropertyKind.categories PropertyKind.categories = true
is_kind PropertyKind.class PropertyKind.class = true
is_kind PropertyKind.status PropertyKind.status = true
is_kind PropertyKind.description PropertyKind.description = true
is_kind PropertyKind.dtstart PropertyKind.dtstart = true
is_kind _ _ = false

-- A string that may be `NULL`, compared by `strcmp`: `prop_name && strcmp(prop_name, key) == 0`.
abbrev pub is_string : Option Bytes → Bytes → Bool
is_string none key = false
is_string (some s) key = str_eq s key

abbrev pub is_string_nocase : Option Bytes → Bytes → Bool
is_string_nocase none key = false
is_string_nocase (some s) key = strcasecmp_eq s key

abbrev pub is_parent : Option RelType → Bool
is_parent none = false
is_parent (some parent) = true
is_parent (some _) = false

module _ ⦃I : Ical⦄ where
  -- The properties that a `NULL` component has none of.
  unfoldable pub properties_of : Option I.Component → List I.Property
  properties_of none = []
  properties_of (some c) = I.properties c

  unfoldable pub is_x_named : Bytes → I.Property → Bool
  unfolding is_kind
  is_x_named key p = is_kind (I.kind p) x && is_string (I.x_name p) key

  unfoldable pub find_x_value : Bytes → List I.Property → Option Bytes
  find_x_value key [] = none
  find_x_value key (p ∷ ps) =
      let rest = find_x_value key ps in if is_x_named key p then I.value_as_string p else rest

  unfoldable pub icalcomponent_get_uniq_x_value : I.Component → Bytes → Option Bytes
  unfolding find_x_value is_x_named properties_of
  icalcomponent_get_uniq_x_value component key =
      find_x_value key (properties_of (I.inner component))

  -- The loop removes the first property with the name and ends.
  unfoldable pub remove_x : Bytes → List I.Property → List I.Property
  remove_x key [] = []
  remove_x key (p ∷ ps) = let rest = remove_x key ps in if is_x_named key p then ps else p ∷ rest

  -- A change of the component that `icalcomponent_get_innermost` gives: the inner one, or the
  -- component itself where it has none.
  unfoldable pub change_innermost : (I.Component → I.Component) → I.Component → I.Component
  change_innermost f c = elim (I.inner c) [ some i ↦ I.with_inner c (f i) | none ↦ f c ]

  unfoldable pub change_properties : (List I.Property → List I.Property) → I.Component → I.Component
  change_properties f c = I.with_properties c (f (I.properties c))

  unfoldable pub icalcomponent_remove_x_prop : I.Component → Bytes → I.Component
  unfolding change_innermost change_properties remove_x is_x_named
  icalcomponent_remove_x_prop component key =
      change_innermost (change_properties (remove_x key)) component

  unfoldable pub icalcomponent_set_unique_x_value : I.Component → Bytes → Bytes → I.Component
  unfolding icalcomponent_remove_x_prop
  icalcomponent_set_unique_x_value component key value =
      change_innermost (change_properties (λ ps. ps ++ I.new_x key value ∷ []))
        (icalcomponent_remove_x_prop component key)

  unfoldable pub icalcomponent_remove_custom_prop : I.Component → Bytes → I.Component
  icalcomponent_remove_custom_prop component key =
      icalcomponent_remove_x_prop component (custom_property_prefix ++ key)

  unfoldable pub icalcomponent_set_custom_x_value : I.Component → Bytes → Bytes → I.Component
  icalcomponent_set_custom_x_value component key value =
      icalcomponent_set_unique_x_value component (custom_property_prefix ++ key) value

  unfoldable pub icalcomponent_get_custom_x_value : I.Component → Bytes → Option Bytes
  icalcomponent_get_custom_x_value component key =
      icalcomponent_get_uniq_x_value component (custom_property_prefix ++ key)

  -- An empty value counts as none, so "." stands for the empty extension.
  unfoldable pub icalcomponent_set_file_extension : I.Component → Bytes → I.Component
  icalcomponent_set_file_extension component extension =
      if str_eq extension []
      then icalcomponent_set_unique_x_value component file_extension_property (codes ".")
      else icalcomponent_set_unique_x_value component file_extension_property extension

  unfoldable pub icalcomponent_get_file_extension : I.Component → Option Bytes
  icalcomponent_get_file_extension component =
      let ext = icalcomponent_get_uniq_x_value component file_extension_property in
      if is_string ext (codes ".") then some [] else ext

  unfoldable pub icalcomponent_mark_as_directory : I.Component → I.Component
  icalcomponent_mark_as_directory ic =
      icalcomponent_set_unique_x_value ic is_directory_property (codes "YES")

  -- The loop of `is_directory_component`: some RELATED-TO property is to a child.
  unfoldable pub has_child_relation : List I.Property → Bool
  has_child_relation [] = false
  has_child_relation (p ∷ ps) =
      (is_kind (I.kind p) related_to && is_string_nocase (I.reltype_as_string p) (codes "CHILD"))
      || has_child_relation ps

  unfoldable pub is_directory_component : I.Component → Bool
  unfolding has_child_relation is_kind properties_of
  is_directory_component component =
      has_child_relation (properties_of (I.journal component))
      || is_string (icalcomponent_get_uniq_x_value component is_directory_property) (codes "YES")

  unfoldable pub find_parent : List I.Property → Option Bytes
  find_parent [] = none
  find_parent (p ∷ ps) =
      let rest = find_parent ps in
      if is_kind (I.kind p) related_to && is_string_nocase (I.reltype_as_string p) (codes "PARENT")
      then I.value_as_string p
      else rest

  unfoldable pub get_parent_uid : I.Component → Option Bytes
  unfolding find_parent is_kind properties_of
  get_parent_uid component = find_parent (properties_of (I.inner component))

  -- The loop removes every RELATED-TO property to the parent.
  pub remove_parent : Bytes → List I.Property → List I.Property
  remove_parent uid [] = []
  remove_parent uid (p ∷ ps) =
      let rest = remove_parent uid ps in
      if is_kind (I.kind p) related_to && is_string (I.related_to p) uid && is_parent (I.reltype p)
      then rest
      else p ∷ rest

  unfoldable pub without_parent : Bytes → I.Component → I.Component
  unfolding remove_parent is_kind
  without_parent uid c = elim (I.inner c) [
    | none ↦ c
    | some i ↦ I.with_inner c (change_properties (remove_parent uid) i)
  ]

  unfoldable pub with_parent : Bytes → I.Component → I.Component
  with_parent uid c = elim (I.inner c) [
    | none ↦ c
    | some i ↦ I.with_inner c (change_properties (λ ps. ps ++ I.new_relatedto uid parent ∷ []) i)
  ]

  -- Some RELATED-TO property has a value, so that `strcmp` looks at the uid of the parent.
  unfoldable pub has_related : List I.Property → Bool
  has_related [] = false
  has_related (p ∷ ps) =
      let rest = has_related ps in
      if is_kind (I.kind p) related_to
      then elim (I.related_to p) [ some value ↦ true | none ↦ rest ]
      else rest

  -- The result is none where `strcmp` is handed `NULL`, the uid of a parent that has none.
  unfoldable pub remove_parent_child_relationship_from_component :
      I.Component → I.Component → Option I.Component
  unfolding has_related is_kind properties_of
  remove_parent_child_relationship_from_component parent_ic child_ic = elim (I.get_uid parent_ic) [
    | some uid ↦ some (without_parent uid child_ic)
    | none ↦ if has_related (properties_of (I.inner child_ic)) then none else some child_ic
  ]

  -- libical makes no property of `NULL`, and adds none.
  unfoldable pub set_parent_child_relationship_to_component :
      I.Component → I.Component → I.Component
  set_parent_child_relationship_to_component parent_ic child_ic = elim (I.get_uid parent_ic) [
    | none ↦ child_ic
    | some uid ↦ with_parent uid child_ic
  ]
