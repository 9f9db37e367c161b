-- ===== src/Tests/Entries.antt =====
-- The properties of an entry, in a small calendar.
use ical_fs.Base.{
  ◌≡◌, refl, codes, str_eq, strcasecmp_eq, none, some, List, [], ◌∷◌, ◌++◌, Bytes, true, arith,
}
use ical_fs.Ical.{Ical, uid, parent}
use ical_fs.Ical.Properties.{
  is_kind, properties_of, is_x_named, is_directory_property, file_extension_property,
  custom_property_prefix, icalcomponent_get_uniq_x_value, icalcomponent_set_unique_x_value,
  icalcomponent_set_file_extension, icalcomponent_get_file_extension,
  icalcomponent_mark_as_directory, is_directory_component, get_parent_uid,
  remove_parent_child_relationship_from_component, set_parent_child_relationship_to_component,
}
use ical_fs.Ical.Properties.Unique.{StandsOnce, count_x, get_uniq_x_value-set_unique_x_value}
use ical_fs.Ical.Properties.Attributes.{
  get_file_extension-set_file_extension, is_directory_component-mark_as_directory,
}
use ical_fs.Ical.Properties.Parents.{OnlyParent, get_parent_uid-moved}
use ical_fs.Tests.Calendar.{
  library, library-IsLawful, Prop, custom, relation, plain, Comp, entry, calendar, find_text,
  get_text,
}

instance abbrev local_library : Ical
local_library = library

-- An entry with a parent, an extension and an attribute.
abbrev entry_properties : List Prop
entry_properties =
    plain uid (codes "e")
    ∷ relation (codes "p") parent
    ∷ custom file_extension_property (codes "md")
    ∷ custom (custom_property_prefix ++ codes "k") (codes "v")
    ∷ []

abbrev item : Comp
item = calendar [] (entry entry_properties)

abbrev directory : Bytes → Comp
directory name = calendar [] (entry (plain uid name ∷ []))

extension_once : StandsOnce file_extension_property item
unfolding count_x is_x_named properties_of str_eq is_kind
extension_once = record { has_inner = λ e. cc; once = ground arith }

custom_once : StandsOnce (custom_property_prefix ++ codes "k") item
unfolding count_x is_x_named properties_of str_eq is_kind
custom_once = record { has_inner = λ e. cc; once = ground arith }

mark_once : StandsOnce is_directory_property item
unfolding count_x is_x_named properties_of str_eq is_kind
mark_once = record { has_inner = λ e. cc; once = ground arith }

get_uniq_x_value-set_unique_x_value_example :
    (icalcomponent_get_uniq_x_value
        (icalcomponent_set_unique_x_value item file_extension_property (codes "txt"))
        file_extension_property
      ≡ some (codes "txt"))
    × StandsOnce file_extension_property
        (icalcomponent_set_unique_x_value item file_extension_property (codes "txt"))
unfolding str_eq
get_uniq_x_value-set_unique_x_value_example =
    get_uniq_x_value-set_unique_x_value library-IsLawful item file_extension_property (codes "txt")
      file_extension_property (λ e. cc) (refl, (refl, (refl, tt))) extension_once

get_file_extension-set_file_extension_example :
    icalcomponent_get_file_extension (icalcomponent_set_file_extension item []) ≡ some []
unfolding str_eq
get_file_extension-set_file_extension_example =
    get_file_extension-set_file_extension library-IsLawful item [] tt extension_once

is_directory_component-mark_as_directory_example :
    is_directory_component (icalcomponent_mark_as_directory item) ≡ true
is_directory_component-mark_as_directory_example =
    is_directory_component-mark_as_directory library-IsLawful item mark_once

item-OnlyParent : OnlyParent (codes "p") (properties_of (library.inner item))
unfolding is_kind properties_of str_eq strcasecmp_eq
item-OnlyParent = ground arith

get_parent_uid-moved_example :
    (c : Comp) × (remove_parent_child_relationship_from_component (directory (codes "p")) item
      ≡ some c)
    × (get_parent_uid c ≡ none)
    × (get_parent_uid (set_parent_child_relationship_to_component (directory (codes "q")) c)
        ≡ some (codes "q"))
get_parent_uid-moved_example =
    get_parent_uid-moved library-IsLawful (directory (codes "p")) (directory (codes "q")) item
      (codes "p") (codes "q") (λ e. cc) (unfold find_text in unfold get_text in refl)
      (unfold find_text in unfold get_text in refl) (refl, tt) (refl, tt) item-OnlyParent
