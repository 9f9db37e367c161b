-- ===== src/Ical/Properties/Parents.antt =====
-- The parent that an entry names: what `set_parent_child_relationship_to_component` and
-- `remove_parent_child_relationship_from_component` do to what `get_parent_uid` reads.
use ical_fs.Base.{
  ◌≡◌, refl, ◌∙◌, ◌≢◌, inl, inr, Bytes, codes, str_eq_refl, strcasecmp_eq, Bool, true, false, ◌&&◌,
  none, some, List, [], ◌∷◌, ◌++◌, arith, Option-cases,
}
use ical_fs.Ical.{Ical, IsPlain, IsLawfulIcal, PropertyKind, related_to, parent}
use ical_fs.Ical.Properties.{
  is_kind, is_string_nocase, is_parent, properties_of, find_parent, remove_parent, get_parent_uid,
  change_properties, without_parent, with_parent, remove_parent_child_relationship_from_component,
  set_parent_child_relationship_to_component,
}

module _ ⦃I : Ical⦄ where
  -- A RELATED-TO property whose relation is to the parent, as `get_parent_uid` tests it.
  abbrev pub names_parent : I.Property → Bool
  names_parent p =
      is_kind (I.kind p) related_to && is_string_nocase (I.reltype_as_string p) (codes "PARENT")

  -- The only parent that the properties name, if they name one, is `uid`.
  abbrev pub OnlyParent : Bytes → List I.Property → Type 0
  OnlyParent uid [] = Unit
  OnlyParent uid (p ∷ ps) =
      (names_parent p ≡ true → I.value_as_string p ≡ some uid) × OnlyParent uid ps

  -- No property names a parent.
  abbrev pub NoParent : List I.Property → Type 0
  NoParent [] = Unit
  NoParent (p ∷ ps) = (names_parent p ≡ false) × NoParent ps

  find_parent_of_none : (ps : List I.Property) → NoParent ps → find_parent ps ≡ none
  unfolding find_parent
  find_parent_of_none [] h = refl
  find_parent_of_none (p ∷ ps) (n, h) = ground (arith, find_parent_of_none ps h)

  find_parent-append :
      (ps : List I.Property) (q : I.Property)
      → NoParent ps
      → names_parent q ≡ true
      → find_parent (ps ++ q ∷ []) ≡ I.value_as_string q
  unfolding find_parent
  find_parent-append [] q h n = ground arith
  find_parent-append (p ∷ ps) q (m, h) n = ground (arith, find_parent-append ps q h n)

  is_kind-related_to : (k : PropertyKind) → is_kind k related_to ≡ true → k ≡ related_to
  unfolding is_kind
  is_kind-related_to related_to h = refl
  is_kind-related_to _ h = cc

  module _ (L : IsLawfulIcal I) where
    is_parent_eq :
        (p : I.Property)
        → is_string_nocase (I.reltype_as_string p) (codes "PARENT") ≡ is_parent (I.reltype p)
    is_parent_eq p =
        let same : strcasecmp_eq (codes "PARENT") (codes "PARENT") ≡ true =
          unfold strcasecmp_eq in refl in
        elim (Option-cases (I.reltype_as_string p)) [
          | inl no_text ↦ ground (arith, L.reltype_text-parent p)
          | inr (t, e) ↦ ground (arith, L.reltype_text-parent p, L.reltype_of_text p t e, same)
        ]

    remove_parent-NoParent :
        (uid : Bytes) (ps : List I.Property)
        → IsPlain uid
        → OnlyParent uid ps
        → NoParent (remove_parent uid ps)
    unfolding remove_parent
    remove_parent-NoParent uid [] plain h = tt
    remove_parent-NoParent uid (p ∷ ps) plain (only, h) = ground (
      arith,
      remove_parent-NoParent uid ps plain h,
      is_parent_eq p,
      is_kind-related_to (I.kind p),
      L.value-related_to p uid,
      only,
      str_eq_refl uid,
    )

    names_parent-new_relatedto : (uid : Bytes) → names_parent (I.new_relatedto uid parent) ≡ true
    unfolding is_kind
    names_parent-new_relatedto uid = rw (
      L.kind-new_relatedto uid parent,
      is_parent_eq (I.new_relatedto uid parent),
      L.reltype-new_relatedto uid parent,
    )

    remove_parent-properties :
        (c : I.Component) (uid : Bytes)
        → I.inner c ≢ none
        → let c' = without_parent uid c in
          (I.inner c' ≢ none)
          × (properties_of (I.inner c') ≡ remove_parent uid (properties_of (I.inner c)))
    unfolding without_parent change_properties properties_of
    remove_parent-properties c uid h = elim (Option-cases (I.inner c)) [
      | inl gone ↦ absurd (h gone)
      | inr (i, e) ↦ ground (
        arith,
        L.inner-with_inner c (I.with_properties i (remove_parent uid (I.properties i))),
        L.properties-with_properties i (remove_parent uid (I.properties i)),
      )
    ]

    set_parent-properties :
        (parent_ic c : I.Component) (uid : Bytes)
        → I.inner c ≢ none
        → I.get_uid parent_ic ≡ some uid
        → let c' = set_parent_child_relationship_to_component parent_ic c in
          properties_of (I.inner c') ≡ properties_of (I.inner c) ++ I.new_relatedto uid parent ∷ []
    unfolding set_parent_child_relationship_to_component with_parent change_properties properties_of
    set_parent-properties parent_ic c uid h u = elim (Option-cases (I.inner c)) [
      | inl gone ↦ absurd (h gone)
      | inr (i, e) ↦
          let ps = I.properties i ++ I.new_relatedto uid parent ∷ [] in
          ground (
            arith,
            L.inner-with_inner c (I.with_properties i ps),
            L.properties-with_properties i ps,
          )
    ]

    -- Under the laws of libical, with the old and the new parent each having a uid of plain bytes, which
    -- libical does not escape: a component
    -- with an inner one, whose only parent, if it names one, is the old one, names none after the
    -- old relation has been removed, and names the new one after that relation has been set.
    pub get_parent_uid-moved :
        (old_ic new_ic c : I.Component) (old new : Bytes)
        → I.inner c ≢ none
        → I.get_uid old_ic ≡ some old
        → I.get_uid new_ic ≡ some new
        → IsPlain old
        → IsPlain new
        → OnlyParent old (properties_of (I.inner c))
        → (c' : I.Component) × (remove_parent_child_relationship_from_component old_ic c ≡ some c')
          × (get_parent_uid c' ≡ none)
          × (get_parent_uid (set_parent_child_relationship_to_component new_ic c') ≡ some new)
    unfolding get_parent_uid remove_parent_child_relationship_from_component
    get_parent_uid-moved old_ic new_ic c old new h o n plain_old plain_new only =
        let (h', e) = remove_parent-properties c old h in
        let none_left = remove_parent-NoParent old (properties_of (I.inner c)) plain_old only in
        let q = I.new_relatedto new parent in
        (
          without_parent old c,
          rw (remove_parent_child_relationship_from_component, o) refl,
          rw e (find_parent_of_none _ none_left),
          rw (set_parent-properties new_ic _ new h' n, e)
              (find_parent-append _ q none_left (names_parent-new_relatedto new)
                ∙ ground (
                  arith,
                  is_kind-related_to (I.kind q),
                  L.kind-new_relatedto new parent,
                  L.value-related_to q new,
                  L.related_to-new_relatedto new parent,
                )),
        )
