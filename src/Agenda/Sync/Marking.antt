-- ===== src/Agenda/Sync/Marking.antt =====
-- What the mark of a directory leaves of an entry: the parent that it names.
use ical_fs.Base.{
  ℕ, ◌≡◌, refl, ◌∙◌, inl, inr, Bytes, codes, true, false, none, some, List, [], ◌∷◌, ◌++◌, arith,
  Option-cases,
}
use ical_fs.Ical.{Ical, IsLawfulIcal, PropertyKind, x, related_to, description}
use ical_fs.Ical.Properties.{
  is_kind, properties_of, is_x_named, find_parent, get_parent_uid, remove_x, change_innermost,
  change_properties, icalcomponent_remove_x_prop, icalcomponent_set_unique_x_value,
  icalcomponent_mark_as_directory, is_directory_property,
}
use ical_fs.Ical.Properties.Unique.{set_unique_x_value-properties}
use ical_fs.Entry.{remove_first, prepared}
use ical_fs.Entry.Prepared.{KeepsInner, prepared-inner}

module _ ⦃I : Ical⦄ where
  -- What is relied on of libical: what KeepsInner says, and that a printed component is parsed again,
  -- as one that names the parent that it named.
  pub record KeepsParent : Type 0 where
    pub inside : KeepsInner
    pub reread :
        (c : I.Component)
        → (c' : I.Component) × (I.from_string (I.as_ical_string c) ≡ some c')
          × (get_parent_uid c' ≡ get_parent_uid c)

  x_no_relation : (k : PropertyKind) → is_kind k x ≡ true → is_kind k related_to ≡ false
  unfolding is_kind
  x_no_relation x h = refl
  x_no_relation _ h = cc

  description_no_relation :
      (k : PropertyKind) → is_kind k description ≡ true → is_kind k related_to ≡ false
  unfolding is_kind
  description_no_relation description h = refl
  description_no_relation _ h = cc

  find_parent-remove_x :
      (key : Bytes) (ps : List I.Property) → find_parent (remove_x key ps) ≡ find_parent ps
  unfolding find_parent remove_x is_x_named
  find_parent-remove_x key [] = refl
  find_parent-remove_x key (p ∷ ps) =
      ground (arith, find_parent-remove_x key ps, x_no_relation (I.kind p))

  find_parent-remove_first :
      (ps : List I.Property) → find_parent (remove_first description ps) ≡ find_parent ps
  unfolding find_parent remove_first
  find_parent-remove_first [] = refl
  find_parent-remove_first (p ∷ ps) =
      ground (arith, find_parent-remove_first ps, description_no_relation (I.kind p))

  find_parent-append_other :
      (ps : List I.Property) (q : I.Property)
      → is_kind (I.kind q) related_to ≡ false
      → find_parent (ps ++ q ∷ []) ≡ find_parent ps
  unfolding find_parent
  find_parent-append_other [] q n = ground arith
  find_parent-append_other (p ∷ ps) q n = ground (arith, find_parent-append_other ps q n)

  module _ (L : IsLawfulIcal I) where
    change_of_none :
        (f : List I.Property → List I.Property) (c : I.Component)
        → I.inner c ≡ none
        → I.inner (change_innermost (change_properties f) c) ≡ none
    unfolding change_innermost change_properties
    change_of_none f c e =
        rw (change_innermost, e) (L.inner-with_properties c (f (I.properties c)) ∙ e)

    set_unique_x_value_of_none :
        (c : I.Component) (key value : Bytes)
        → I.inner c ≡ none
        → I.inner (icalcomponent_set_unique_x_value c key value) ≡ none
    unfolding icalcomponent_set_unique_x_value icalcomponent_remove_x_prop
    set_unique_x_value_of_none c key value e =
        change_of_none (λ ps. ps ++ I.new_x key value ∷ []) (icalcomponent_remove_x_prop c key)
          (change_of_none (remove_x key) c e)

    -- A property of the program's own does not change which parent an entry names.
    get_parent_uid-set_unique_x_value :
        (c : I.Component) (key value : Bytes)
        → get_parent_uid (icalcomponent_set_unique_x_value c key value) ≡ get_parent_uid c
    unfolding get_parent_uid properties_of
    get_parent_uid-set_unique_x_value c key value = elim (Option-cases (I.inner c)) [
      | inl nothing ↦ rw (set_unique_x_value_of_none c key value nothing, nothing) refl
      | inr (i, e) ↦ rw ((set_unique_x_value-properties L c key value (λ gone. cc)).1) (
          find_parent-append_other (remove_x key (properties_of (I.inner c))) (I.new_x key value) (
            x_no_relation (I.kind (I.new_x key value))
              (rw (L.kind-new_x key value) (unfold is_kind in refl)))
          ∙ find_parent-remove_x key (properties_of (I.inner c)))
    ]

  module _ (K : KeepsParent) where
    get_parent_uid-prepared :
        (now : ℕ) (c : I.Component) → get_parent_uid (prepared now c) ≡ get_parent_uid c
    unfolding get_parent_uid
    get_parent_uid-prepared now c =
        prepared-inner K.inside find_parent now c find_parent-remove_first

    -- An entry that is marked as a directory and written names the parent that it named when it is
    -- read again.
    pub reread-marked :
        (now : ℕ) (c : I.Component)
        → (c' : I.Component) × (I.from_string
              (I.as_ical_string (prepared now (icalcomponent_mark_as_directory c)))
            ≡ some c')
          × (get_parent_uid c' ≡ get_parent_uid c)
    unfolding icalcomponent_mark_as_directory
    reread-marked now c =
        let (c', again, same) = K.reread (prepared now (icalcomponent_mark_as_directory c)) in
        (
          c',
          again,
          same
              ∙ (get_parent_uid-prepared now (icalcomponent_mark_as_directory c)
                  ∙ get_parent_uid-set_unique_x_value K.inside.lawful c is_directory_property
                      (codes "YES")),
        )
