-- ===== src/Tests/Texts.antt =====
-- Calendar libraries that differ from the small one in their texts, and look for the inner component
-- one level below.
use ical_fs.Base.{◌≡◌, refl, ◌⊎◌, inl, inr, Bytes, Option, some, List}
use ical_fs.Ical.{Ical, IsLawfulIcal}
use ical_fs.Entry.Prepared.{KeepsInner}
use ical_fs.Tests.Calendar.{
  library, library-IsLawful, Prop, Comp, entry, calendar, with_in, inner_of,
}

abbrev first_in : Comp → Comp
first_in (entry ps) = entry ps
first_in (calendar os i) = i

abbrev replace_first : Comp → Comp → Comp
replace_first (entry ps) j = j
replace_first (calendar os i) j = calendar os j

abbrev pub with_texts : (Bytes → Option Comp) → (Comp → Bytes) → Ical
with_texts from_string as_ical_string = record library {
  from_string = from_string;
  as_ical_string = as_ical_string;
  get_inner = first_in;
  with_get_inner = replace_first;
}

with_texts-IsLawfulIcal :
    (from_string : Bytes → Option Comp) (as_ical_string : Comp → Bytes)
    → IsLawfulIcal (with_texts from_string as_ical_string)
with_texts-IsLawfulIcal from_string as_ical_string = record {
  properties-with_properties = library-IsLawful.properties-with_properties;
  inner-with_properties = library-IsLawful.inner-with_properties;
  inner-with_inner = library-IsLawful.inner-with_inner;
  kind-new_x = library-IsLawful.kind-new_x;
  x_name-new_x = library-IsLawful.x_name-new_x;
  value-new_x = library-IsLawful.value-new_x;
  kind-new_relatedto = library-IsLawful.kind-new_relatedto;
  related_to-new_relatedto = library-IsLawful.related_to-new_relatedto;
  reltype-new_relatedto = library-IsLawful.reltype-new_relatedto;
  reltype_text-parent = library-IsLawful.reltype_text-parent;
  reltype_of_text = library-IsLawful.reltype_of_text;
  value-related_to = library-IsLawful.value-related_to;
}

first-seen :
    (c : Comp) (ps : List Prop)
    → let c' = replace_first c (with_in (first_in c) ps) in
      (inner_of c' ≡ inner_of c)
      ⊎ ((inner_of c ≡ some (first_in c)) × (inner_of c' ≡ some (with_in (first_in c) ps)))
first-seen (entry qs) ps = inl refl
first-seen (calendar os i) ps = inr (refl, refl)

pub with_texts-KeepsInner :
    (from_string : Bytes → Option Comp) (as_ical_string : Comp → Bytes)
    → KeepsInner ⦃I = with_texts from_string as_ical_string⦄
with_texts-KeepsInner from_string as_ical_string = record {
  lawful = with_texts-IsLawfulIcal from_string as_ical_string;
  inner-with_get_inner = first-seen;
}
