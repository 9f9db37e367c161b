-- ===== src/Tests/Calendar.antt =====
-- A small calendar library that meets the laws of the interface: components as lists of
-- properties, and the text of a component is its description.
use ical_fs.Base.{
  ◌≡◌, refl, ◌≢◌, Bool, true, false, Option, none, some, List, [], ◌∷◌, Bytes, codes, if◌then◌else◌,
  strcasecmp_eq,
}
use ical_fs.Ical.{
  Ical, IsLawfulIcal, PropertyKind, x, related_to, last_modified, categories, class, status,
  description, summary, dtstart, uid, other, RelType, parent, child, sibling, unknown,
}
use ical_fs.Ical.Properties.{is_kind}
use ical_fs.Ical.Codes.{PropertyClass, no_class, PropertyStatus, no_status}

pub data Prop : Type 0 where
  custom : Bytes → Bytes → Prop
  relation : Bytes → RelType → Prop
  marked : PropertyClass → Prop
  state : PropertyStatus → Prop
  plain : PropertyKind → Bytes → Prop

pub data Comp : Type 0 where
  entry : List Prop → Comp
  calendar : List Prop → Comp → Comp

abbrev pub kind_of : Prop → PropertyKind
kind_of (custom n v) = x
kind_of (relation u r) = related_to
kind_of (marked c) = class
kind_of (state c) = status
kind_of (plain x v) = other
kind_of (plain related_to v) = other
kind_of (plain k v) = k

abbrev pub properties_in : Comp → List Prop
properties_in (entry ps) = ps
properties_in (calendar os c) = os

abbrev pub with_in : Comp → List Prop → Comp
with_in (entry _) ps = entry ps
with_in (calendar _ c) ps = calendar ps c

abbrev pub inner_of : Comp → Option Comp
inner_of (entry ps) = none
inner_of (calendar os c) = some c

abbrev pub replace_inner : Comp → Comp → Comp
replace_inner (entry ps) i = entry ps
replace_inner (calendar os c) i = calendar os i

abbrev pub innermost : Comp → Comp
innermost (entry ps) = entry ps
innermost (calendar os c) = innermost c

abbrev pub replace_innermost : Comp → Comp → Comp
replace_innermost (entry ps) i = i
replace_innermost (calendar os c) i = calendar os (replace_innermost c i)

abbrev pub text_of : Prop → Option Bytes
text_of (custom n v) = some v
text_of (relation u r) = some u
text_of (plain k v) = some v
text_of _ = none

unfoldable pub find_text : PropertyKind → List Prop → Option Bytes
unfolding is_kind
find_text k [] = none
find_text k (p ∷ ps) = let rest = find_text k ps in if same k (kind_of p) then text_of p else rest
  where
    same : PropertyKind → PropertyKind → Bool
    same uid uid = true
    same summary summary = true
    same description description = true
    same dtstart dtstart = true
    same _ _ = false

unfoldable pub get_text : PropertyKind → Comp → Option Bytes
unfolding find_text
get_text k c = find_text k (properties_in (innermost c))

abbrev pub set_text : PropertyKind → Comp → Bytes → Comp
set_text k c v =
    replace_innermost c (with_in (innermost c) (plain k v ∷ properties_in (innermost c)))

abbrev pub reltype_text : RelType → Bytes
reltype_text parent = codes "PARENT"
reltype_text child = codes "CHILD"
reltype_text sibling = codes "SIBLING"
reltype_text unknown = codes "X"

abbrev pub reltype_of : Prop → Option RelType
reltype_of (relation u r) = some r
reltype_of _ = none

abbrev pub reltype_text_of : Prop → Option Bytes
reltype_text_of (relation u r) = some (reltype_text r)
reltype_text_of _ = none

abbrev pub name_of : Prop → Option Bytes
name_of (custom n v) = some n
name_of _ = none

abbrev pub related_of : Prop → Option Bytes
related_of (relation u r) = some u
related_of _ = none

abbrev pub class_of : Prop → PropertyClass
class_of (marked c) = c
class_of _ = no_class

abbrev pub status_of : Prop → PropertyStatus
status_of (state c) = c
status_of _ = no_status

abbrev pub or_empty : Option Bytes → Bytes
or_empty none = []
or_empty (some s) = s

abbrev pub library : Ical
library = record {
  Component = Comp;
  Property = Prop;
  Time = Bytes;
  from_string = λ s. some (calendar [] (entry (plain description s ∷ [])));
  as_ical_string = λ c. or_empty (get_text description c);
  inner = inner_of;
  journal = inner_of;
  with_inner = replace_inner;
  get_inner = innermost;
  with_get_inner = replace_innermost;
  properties = properties_in;
  with_properties = with_in;
  kind = kind_of;
  x_name = name_of;
  value_as_string = text_of;
  related_to = related_of;
  reltype = reltype_of;
  reltype_as_string = reltype_text_of;
  class_of = class_of;
  status_of = status_of;
  categories_of = λ p. or_empty (text_of p);
  new_x = custom;
  new_relatedto = relation;
  new_class = marked;
  new_categories = plain categories;
  new_version = plain other;
  new_prodid = plain other;
  new_uid = plain uid;
  new_dtstamp = λ t. plain other [];
  new_summary = plain summary;
  new_description = plain description;
  new_lastmodified = λ t. plain last_modified (t ∷ []);
  set_lastmodified = λ p t. plain last_modified (t ∷ []);
  set_class = λ p c. marked c;
  get_uid = get_text uid;
  get_summary = get_text summary;
  set_summary = set_text summary;
  get_description = get_text description;
  set_description = set_text description;
  get_dtstart = get_text dtstart;
  set_dtstart = set_text dtstart;
  time_from_string = some;
  time_as_string = λ t. t;
  set_status =
      λ c s. replace_innermost c (with_in (innermost c) (state s ∷ properties_in (innermost c)));
  is_journal = λ c. true;
  new_vcalendar = calendar [] (entry []);
  new_vjournal = entry [];
  add_component = replace_inner;
}

properties_in-with_in : (c : Comp) (ps : List Prop) → properties_in (with_in c ps) ≡ ps
properties_in-with_in (entry qs) ps = refl
properties_in-with_in (calendar os i) ps = refl

inner_of-with_in : (c : Comp) (ps : List Prop) → inner_of (with_in c ps) ≡ inner_of c
inner_of-with_in (entry qs) ps = refl
inner_of-with_in (calendar os i) ps = refl

inner_of-replace_inner : (c i : Comp) → inner_of c ≢ none → inner_of (replace_inner c i) ≡ some i
inner_of-replace_inner (entry ps) i h = absurd (h refl)
inner_of-replace_inner (calendar os j) i h = refl

reltype_text-parent :
    (p : Prop) → reltype_of p ≡ some parent → reltype_text_of p ≡ some (codes "PARENT")
reltype_text-parent (relation u parent) h = refl
reltype_text-parent (relation u child) h = cc
reltype_text-parent (relation u sibling) h = cc
reltype_text-parent (relation u unknown) h = cc
reltype_text-parent (custom n v) h = cc
reltype_text-parent (marked c) h = cc
reltype_text-parent (state c) h = cc
reltype_text-parent (plain k v) h = cc

parent_of_text : (r : RelType) → strcasecmp_eq (reltype_text r) (codes "PARENT") ≡ true → r ≡ parent
unfolding strcasecmp_eq
parent_of_text parent h = refl
parent_of_text child h = cc
parent_of_text sibling h = cc
parent_of_text unknown h = cc

reltype_of_text :
    (p : Prop) (t : Bytes)
    → reltype_text_of p ≡ some t
    → strcasecmp_eq t (codes "PARENT") ≡ true
    → reltype_of p ≡ some parent
reltype_of_text (relation u r) t h e = cc (parent_of_text r (cc))
reltype_of_text (custom n v) t h e = cc
reltype_of_text (marked c) t h e = cc
reltype_of_text (state c) t h e = cc
reltype_of_text (plain k v) t h e = cc

value-related_to : (p : Prop) → kind_of p ≡ related_to → text_of p ≡ related_of p
value-related_to (relation u r) h = refl
value-related_to (custom n v) h = cc
value-related_to (marked c) h = cc
value-related_to (state c) h = cc
value-related_to (plain x v) h = cc
value-related_to (plain related_to v) h = cc
value-related_to (plain last_modified v) h = cc
value-related_to (plain categories v) h = cc
value-related_to (plain class v) h = cc
value-related_to (plain status v) h = cc
value-related_to (plain description v) h = cc
value-related_to (plain summary v) h = cc
value-related_to (plain dtstart v) h = cc
value-related_to (plain uid v) h = cc
value-related_to (plain other v) h = cc

pub library-IsLawful : IsLawfulIcal library
library-IsLawful = record {
  properties-with_properties = properties_in-with_in;
  inner-with_properties = inner_of-with_in;
  inner-with_inner = inner_of-replace_inner;
  kind-new_x = λ n v. refl;
  x_name-new_x = λ n v. refl;
  value-new_x = λ n v filled is_plain. refl;
  kind-new_relatedto = λ u r. refl;
  related_to-new_relatedto = λ u r. refl;
  reltype-new_relatedto = λ u r. refl;
  reltype_text-parent = reltype_text-parent;
  reltype_of_text = reltype_of_text;
  value-related_to =
      λ p t k is_plain. (λ e. cc (value-related_to p k), λ e. cc (value-related_to p k));
}
