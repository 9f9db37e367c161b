-- ===== src/Ical.antt =====
-- What the program uses of libical: an interface, since the library is not part of the repository.
-- A component that the program changes through a pointer is here a new value, which is put back
-- into the component around it by `with_inner`.
pub mod Codes
pub mod Properties
use ical_fs.Base.{
  ℕ, ◌≡◌, ◌≢◌, ◌↔◌, Bool, true, not, ◌&&◌, ◌==◌, leb, [], All, Bytes, codes, strcasecmp_eq, Option,
  none, some, List,
}
use ical_fs.Ical.Codes.{PropertyClass, PropertyStatus}

-- The property kinds that the program asks for; `other` is any further one.
pub data PropertyKind : Type 0 where
  x related_to last_modified categories class status description summary dtstart uid other :
      PropertyKind

-- `RELTYPE`, as `icalparameter_get_reltype` gives it.
pub data RelType : Type 0 where
  parent child sibling unknown : RelType

pub record Ical : Type 1 where
  pub Component : Type 0
  pub Property : Type 0
  -- An `icaltimetype` other than the null time, which is `none`.
  pub Time : Type 0
  -- icalcomponent_new_from_string, icalcomponent_as_ical_string_r
  pub from_string : Bytes → Option Component
  pub as_ical_string : Component → Bytes
  -- icalcomponent_get_first_component with ICAL_ANY_COMPONENT and with ICAL_VJOURNAL_COMPONENT
  pub inner : Component → Option Component
  pub journal : Component → Option Component
  pub with_inner : Component → Component → Component
  -- icalcomponent_get_inner: the first real component of a calendar, or the component itself
  pub get_inner : Component → Component
  pub with_get_inner : Component → Component → Component
  -- The properties of a component in the order in which get_first_property and get_next_property
  -- give them, and the component with other properties.
  pub properties : Component → List Property
  pub with_properties : Component → List Property → Component
  pub kind : Property → PropertyKind
  -- icalproperty_get_x_name, icalproperty_get_value_as_string
  pub x_name : Property → Option Bytes
  pub value_as_string : Property → Option Bytes
  -- icalproperty_get_relatedto, the RELTYPE parameter and its text, get_class, get_status
  pub related_to : Property → Option Bytes
  pub reltype : Property → Option RelType
  pub reltype_as_string : Property → Option Bytes
  pub class_of : Property → PropertyClass
  pub status_of : Property → PropertyStatus
  pub categories_of : Property → Bytes
  -- icalproperty_new_x with set_x_name and set_x; new_relatedto with its RELTYPE parameter
  pub new_x : Bytes → Bytes → Property
  pub new_relatedto : Bytes → RelType → Property
  pub new_class : PropertyClass → Property
  pub new_categories : Bytes → Property
  pub new_version : Bytes → Property
  pub new_prodid : Bytes → Property
  pub new_uid : Bytes → Property
  pub new_dtstamp : ℕ → Property
  pub new_summary : Bytes → Property
  pub new_description : Bytes → Property
  -- icalproperty_new_lastmodified and icalproperty_set_lastmodified, at a `time_t`
  pub new_lastmodified : ℕ → Property
  pub set_lastmodified : Property → ℕ → Property
  pub set_class : Property → PropertyClass → Property
  -- The getters and setters that look for the property in the first real component.
  pub get_uid : Component → Option Bytes
  pub get_summary : Component → Option Bytes
  pub set_summary : Component → Bytes → Component
  pub get_description : Component → Option Bytes
  pub set_description : Component → Bytes → Component
  pub get_dtstart : Component → Option Time
  pub set_dtstart : Component → Time → Component
  pub time_from_string : Bytes → Option Time
  pub time_as_string : Time → Bytes
  pub set_status : Component → PropertyStatus → Component
  -- whether icalcomponent_get_first_real_component gives a VJOURNAL component
  pub is_journal : Component → Bool
  -- icalcomponent_new_vcalendar, icalcomponent_new_vjournal, icalcomponent_add_component
  pub new_vcalendar : Component
  pub new_vjournal : Component
  pub add_component : Component → Component → Component

-- The bytes that libical writes in a text as they are: no control character, quote, comma,
-- semicolon or backslash. Before any of those it puts a backslash.
abbrev pub plain_byte : ℕ → Bool
plain_byte b = leb 32 b && not (b == b'"') && not (b == b',') && not (b == b';') && not (b == b'\\')

abbrev pub IsPlain : Bytes → Type 0
IsPlain text = All (λ b. plain_byte b ≡ true) text

-- What the program relies on. A property is read back as it was made, its value as a text where that
-- needs no escape, a component has the properties that it was given, and what a pointer to the inner component changes is seen there.
pub record IsLawfulIcal (I : Ical) : Type 0 where
  pub properties-with_properties :
      (c : I.Component) (ps : List I.Property) → I.properties (I.with_properties c ps) ≡ ps
  pub inner-with_properties :
      (c : I.Component) (ps : List I.Property) → I.inner (I.with_properties c ps) ≡ I.inner c
  pub inner-with_inner :
      (c i : I.Component) → I.inner c ≢ none → I.inner (I.with_inner c i) ≡ some i
  pub kind-new_x : (name value : Bytes) → I.kind (I.new_x name value) ≡ x
  pub x_name-new_x : (name value : Bytes) → I.x_name (I.new_x name value) ≡ some name
  pub value-new_x :
      (name value : Bytes)
      → value ≢ []
      → IsPlain value
      → I.value_as_string (I.new_x name value) ≡ some value
  pub kind-new_relatedto : (uid : Bytes) (r : RelType) → I.kind (I.new_relatedto uid r) ≡ related_to
  pub related_to-new_relatedto :
      (uid : Bytes) (r : RelType) → I.related_to (I.new_relatedto uid r) ≡ some uid
  pub reltype-new_relatedto :
      (uid : Bytes) (r : RelType) → I.reltype (I.new_relatedto uid r) ≡ some r
  pub reltype_text-parent :
      (p : I.Property) → I.reltype p ≡ some parent → I.reltype_as_string p ≡ some (codes "PARENT")
  pub reltype_of_text :
      (p : I.Property) (t : Bytes)
      → I.reltype_as_string p ≡ some t
      → strcasecmp_eq t (codes "PARENT") ≡ true
      → I.reltype p ≡ some parent
  pub value-related_to :
      (p : I.Property) (text : Bytes)
      → I.kind p ≡ related_to
      → IsPlain text
      → (I.value_as_string p ≡ some text) ↔ (I.related_to p ≡ some text)
