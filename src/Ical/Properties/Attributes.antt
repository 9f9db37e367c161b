-- ===== src/Ical/Properties/Attributes.antt =====
-- The file extension, the directory mark and the attributes of the user, each kept under a name of
-- its own among the X- properties.
use ical_fs.Base.{
  ◌≡◌, refl, Bytes, codes, str_eq, str_eq_iff, str_eq_refl, true, false, none, some, [], ◌++◌,
  arith, if◌then◌else◌, ◌≢◌, inl, inr, Bool-cases,
}
use ical_fs.Ical.{Ical, IsPlain, IsLawfulIcal}
use ical_fs.Ical.Properties.{
  is_directory_property, file_extension_property, custom_property_prefix,
  icalcomponent_get_uniq_x_value, icalcomponent_remove_custom_prop,
  icalcomponent_set_custom_x_value, icalcomponent_get_custom_x_value,
  icalcomponent_set_file_extension, icalcomponent_get_file_extension,
  icalcomponent_mark_as_directory, is_directory_component,
}
use ical_fs.Ical.Properties.Unique.{
  StandsOnce, get_uniq_x_value-set_unique_x_value, get_uniq_x_value-remove_x_prop,
}

-- Custom names differ where the keys behind the prefix differ, and from the program's own names.
custom_names :
    (k j : Bytes)
    → (str_eq (custom_property_prefix ++ k) (custom_property_prefix ++ j) ≡ str_eq k j)
      × (str_eq (custom_property_prefix ++ k) file_extension_property ≡ false)
      × (str_eq (custom_property_prefix ++ k) is_directory_property ≡ false)
unfolding str_eq
custom_names k j = (refl, refl, refl)

module _ ⦃I : Ical⦄ (L : IsLawfulIcal I) (c : I.Component) where
  -- Under the laws of libical, where the name of the extension stands at most once in a component
  -- with an inner one: an extension of plain bytes that is set is read back, but that "." is read as "".
  pub get_file_extension-set_file_extension :
      (e : Bytes)
      → IsPlain e
      → StandsOnce file_extension_property c
      → icalcomponent_get_file_extension (icalcomponent_set_file_extension c e)
        ≡ some (if str_eq e (codes ".") then [] else e)
  unfolding icalcomponent_get_file_extension icalcomponent_set_file_extension
  get_file_extension-set_file_extension e plain o =
      let dot =
        get_uniq_x_value-set_unique_x_value L c file_extension_property (codes ".")
          file_extension_property (λ empty. cc) (refl, tt) o in
      elim (Bool-cases (str_eq e [])) [
        | inl empty ↦ ground (
          arith,
          dot.0,
          str_eq_refl file_extension_property,
          str_eq_refl (codes "."),
          str_eq_iff e [],
        )
        | inr filled ↦
            let ne : e ≢ [] = λ same. cc (filled, (str_eq_iff e []).1 same) in
            let own =
              get_uniq_x_value-set_unique_x_value L c file_extension_property e
                file_extension_property ne plain o in
            ground (arith, own.0, filled, str_eq_refl file_extension_property)
      ]

  -- Under the laws of libical, a component with an inner one, in which the mark stands at most
  -- once, is a directory when it has been marked as one.
  pub is_directory_component-mark_as_directory :
      StandsOnce is_directory_property c
      → is_directory_component (icalcomponent_mark_as_directory c) ≡ true
  unfolding is_directory_component icalcomponent_mark_as_directory
  is_directory_component-mark_as_directory o = ground (
    arith,
    (get_uniq_x_value-set_unique_x_value L c is_directory_property (codes "YES")
        is_directory_property (λ empty. cc) (refl, (refl, (refl, tt))) o).0,
    str_eq_refl is_directory_property,
    str_eq_refl (codes "YES"),
  )

  -- Under the laws of libical, where the attribute stands at most once in a component with an
  -- inner one: a value of plain bytes, not empty, that is set is read back, the others keep their values,
  -- and neither the file extension nor the directory mark changes.
  pub get_custom_x_value-set_custom_x_value :
      (k value j : Bytes)
      → value ≢ []
      → IsPlain value
      → StandsOnce (custom_property_prefix ++ k) c
      → let c' = icalcomponent_set_custom_x_value c k value in
        (icalcomponent_get_custom_x_value c' j
          ≡ (if str_eq k j then some value else icalcomponent_get_custom_x_value c j))
        × (icalcomponent_get_file_extension c' ≡ icalcomponent_get_file_extension c)
        × (icalcomponent_get_uniq_x_value c' is_directory_property
            ≡ icalcomponent_get_uniq_x_value c is_directory_property)
  unfolding icalcomponent_get_custom_x_value icalcomponent_set_custom_x_value
      icalcomponent_get_file_extension
  get_custom_x_value-set_custom_x_value k value j filled plain o =
      let (same, ext, dir) = custom_names k j in
      let law = λ (name : Bytes).
        (get_uniq_x_value-set_unique_x_value L c (custom_property_prefix ++ k) value name filled
          plain o).0 in
      (
        rw (law (custom_property_prefix ++ j), same),
        rw (law file_extension_property, ext),
        rw (law is_directory_property, dir),
      )

  -- Under the laws of libical, an attribute of the user that stands at most once in a component
  -- with an inner one is gone when it has been removed, and the others keep their values.
  pub get_custom_x_value-remove_custom_prop :
      (k j : Bytes)
      → StandsOnce (custom_property_prefix ++ k) c
      → icalcomponent_get_custom_x_value (icalcomponent_remove_custom_prop c k) j
        ≡ (if str_eq k j then none else icalcomponent_get_custom_x_value c j)
  unfolding icalcomponent_get_custom_x_value icalcomponent_remove_custom_prop
  get_custom_x_value-remove_custom_prop k j o = rw (
    get_uniq_x_value-remove_x_prop L c (custom_property_prefix ++ k) (custom_property_prefix ++ j)
        o,
    (custom_names k j).0,
  )
