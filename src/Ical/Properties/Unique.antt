-- ===== src/Ical/Properties/Unique.antt =====
-- The X- properties under one name: what is set is read back, nothing else is touched, and a name
-- that stands once goes on standing once.
use ical_fs.Base.{
  ℕ, ◌+◌, ◌-◌, ◌≤◌, ◌≡◌, refl, ap, ◌∙◌, ◌≢◌, inl, inr, Bytes, str_eq, str_eq_iff, str_eq_refl, true,
  false, none, some, List, [], ◌∷◌, ◌++◌, arith, Bool-cases, Option-cases, if◌then◌else◌,
}
use ical_fs.Ical.{Ical, IsPlain, IsLawfulIcal}
use ical_fs.Ical.Properties.{
  properties_of, is_x_named, find_x_value, remove_x, change_innermost, change_properties,
  icalcomponent_get_uniq_x_value, icalcomponent_remove_x_prop, icalcomponent_set_unique_x_value,
}

module _ ⦃I : Ical⦄ where
  -- How many X- properties have the name.
  unfoldable pub count_x : Bytes → List I.Property → ℕ
  count_x key [] = 0
  count_x key (p ∷ ps) = (if is_x_named key p then 1 else 0) + count_x key ps

  -- The name stands at most once in the inner component, which there is.
  pub record StandsOnce (key : Bytes) (c : I.Component) : Type 0 where
    pub has_inner : I.inner c ≢ none
    pub once : count_x key (properties_of (I.inner c)) ≤ 1

  find_x_value-append_of_none :
      (key : Bytes) (ps : List I.Property) (p : I.Property)
      → count_x key ps ≡ 0
      → is_x_named key p ≡ true
      → find_x_value key (ps ++ p ∷ []) ≡ I.value_as_string p
  unfolding find_x_value count_x
  find_x_value-append_of_none key [] p h n = ground arith
  find_x_value-append_of_none key (q ∷ ps) p h n =
      ground (arith, find_x_value-append_of_none key ps p)

  find_x_value_of_none :
      (key : Bytes) (ps : List I.Property) → count_x key ps ≡ 0 → find_x_value key ps ≡ none
  unfolding find_x_value count_x
  find_x_value_of_none key [] h = refl
  find_x_value_of_none key (q ∷ ps) h = ground (arith, find_x_value_of_none key ps)

  find_x_value-append_other :
      (key : Bytes) (ps : List I.Property) (p : I.Property)
      → is_x_named key p ≡ false
      → find_x_value key (ps ++ p ∷ []) ≡ find_x_value key ps
  unfolding find_x_value
  find_x_value-append_other key [] p n = ground arith
  find_x_value-append_other key (q ∷ ps) p n = ground (arith, find_x_value-append_other key ps p)

  is_x_named_other :
      (key j : Bytes) (p : I.Property)
      → str_eq key j ≡ false
      → is_x_named key p ≡ true
      → is_x_named j p ≡ false
  unfolding is_x_named
  is_x_named_other key j p ne n = elim (Option-cases (I.x_name p)) [
    | inl none_name ↦ ground arith
    | inr (name, e) ↦ ground (arith, str_eq_iff name key, str_eq_iff name j, str_eq_iff key j)
  ]

  find_x_value-remove_x_other :
      (key j : Bytes) (ps : List I.Property)
      → str_eq key j ≡ false
      → find_x_value j (remove_x key ps) ≡ find_x_value j ps
  unfolding find_x_value remove_x
  find_x_value-remove_x_other key j [] ne = refl
  find_x_value-remove_x_other key j (p ∷ ps) ne =
      ground (arith, is_x_named_other key j p ne, find_x_value-remove_x_other key j ps ne)

  count_x-remove_x :
      (key : Bytes) (ps : List I.Property) → count_x key (remove_x key ps) ≡ count_x key ps - 1
  unfolding count_x remove_x
  count_x-remove_x key [] = omega arith
  count_x-remove_x key (p ∷ ps) = ground (arith, count_x-remove_x key ps)

  count_x-append :
      (key : Bytes) (ps qs : List I.Property)
      → count_x key (ps ++ qs) ≡ count_x key ps + count_x key qs
  unfolding count_x
  count_x-append key [] qs = omega arith
  count_x-append key (p ∷ ps) qs = omega (arith, count_x-append key ps qs)

  count_x-remove_x_other :
      (key j : Bytes) (ps : List I.Property)
      → str_eq key j ≡ false
      → count_x j (remove_x key ps) ≡ count_x j ps
  unfolding count_x remove_x
  count_x-remove_x_other key j [] ne = refl
  count_x-remove_x_other key j (p ∷ ps) ne =
      ground (arith, is_x_named_other key j p ne, count_x-remove_x_other key j ps ne)

  module _ (L : IsLawfulIcal I) where
    is_x_named-new_x :
        (key name value : Bytes) → is_x_named key (I.new_x name value) ≡ str_eq name key
    unfolding is_x_named
    is_x_named-new_x key name value = rw (L.kind-new_x name value, L.x_name-new_x name value)

    change_innermost-properties :
        (f : List I.Property → List I.Property) (c : I.Component)
        → I.inner c ≢ none
        → (I.inner (change_innermost (change_properties f) c) ≢ none)
          × (properties_of (I.inner (change_innermost (change_properties f) c))
              ≡ f (properties_of (I.inner c)))
    unfolding change_innermost change_properties properties_of
    change_innermost-properties f c h = elim (Option-cases (I.inner c)) [
      | inl gone ↦ absurd (h gone)
      | inr (i, e) ↦ ground (
        arith,
        L.inner-with_inner c (I.with_properties i (f (I.properties i))),
        L.properties-with_properties i (f (I.properties i)),
      )
    ]

    remove_x_prop-properties :
        (c : I.Component) (key : Bytes)
        → I.inner c ≢ none
        → (I.inner (icalcomponent_remove_x_prop c key) ≢ none)
          × (properties_of (I.inner (icalcomponent_remove_x_prop c key))
              ≡ remove_x key (properties_of (I.inner c)))
    unfolding icalcomponent_remove_x_prop
    remove_x_prop-properties c key h = change_innermost-properties (remove_x key) c h

    pub set_unique_x_value-properties :
        (c : I.Component) (key value : Bytes)
        → I.inner c ≢ none
        → (I.inner (icalcomponent_set_unique_x_value c key value) ≢ none)
          × (properties_of (I.inner (icalcomponent_set_unique_x_value c key value))
              ≡ remove_x key (properties_of (I.inner c)) ++ I.new_x key value ∷ [])
    unfolding icalcomponent_set_unique_x_value
    set_unique_x_value-properties c key value h =
        let (h', e) = remove_x_prop-properties c key h in
        let (h'', e') =
          change_innermost-properties (λ ps. ps ++ I.new_x key value ∷ [])
            (icalcomponent_remove_x_prop c key) h' in
        (h'', e' ∙ ap (λ ps. ps ++ I.new_x key value ∷ []) e)

    -- Under the laws of libical, in a component with an inner one in which the name stands at most
    -- once: a value, not empty and of plain bytes, that is set under the name is read back under it, the values under all other
    -- names are what they were, and the name still stands at most once.
    pub get_uniq_x_value-set_unique_x_value :
        (c : I.Component) (key value j : Bytes)
        → value ≢ []
        → IsPlain value
        → StandsOnce key c
        → (icalcomponent_get_uniq_x_value (icalcomponent_set_unique_x_value c key value) j
            ≡ (if str_eq key j then some value else icalcomponent_get_uniq_x_value c j))
          × StandsOnce key (icalcomponent_set_unique_x_value c key value)
    unfolding icalcomponent_get_uniq_x_value count_x
    get_uniq_x_value-set_unique_x_value c key value j filled plain o =
        let ps = properties_of (I.inner c) in
        let (h, e) = set_unique_x_value-properties c key value o.has_inner in
        let p = I.new_x key value in
        (
          elim (Bool-cases (str_eq key j)) [
            | inl same ↦
                rw
                  (
                    e,
                    same,
                    ← (str_eq_iff key j).0 same,
                    find_x_value-append_of_none key (remove_x key ps) p
                        (omega (arith, count_x-remove_x key ps, o.once))
                        (is_x_named-new_x key key value ∙ str_eq_refl key),
                  )
                  (L.value-new_x key value filled plain)
            | inr other ↦
                rw
                  (
                    e,
                    other,
                    find_x_value-append_other j (remove_x key ps) p
                        (is_x_named-new_x j key value ∙ other),
                  )
                  (find_x_value-remove_x_other key j ps other)
          ],
          record {
            has_inner = h;
            once = rw e (
                ground (
                  arith,
                  count_x-append key (remove_x key ps) (p ∷ []),
                  count_x-remove_x key ps,
                  o.once,
                ));
          },
        )

    -- Setting one name leaves every other name standing as often as before.
    pub set_unique_x_value-StandsOnce :
        (c : I.Component) (key value j : Bytes)
        → str_eq key j ≡ false
        → StandsOnce j c
        → StandsOnce j (icalcomponent_set_unique_x_value c key value)
    unfolding count_x
    set_unique_x_value-StandsOnce c key value j other o =
        let ps = properties_of (I.inner c) in
        let (h, e) = set_unique_x_value-properties c key value o.has_inner in
        record {
          has_inner = h;
          once = rw e (
              ground (
                arith,
                count_x-append j (remove_x key ps) (I.new_x key value ∷ []),
                count_x-remove_x_other key j ps other,
                is_x_named-new_x j key value,
                o.once,
              ));
        }

    -- Under the laws of libical, a name that stands at most once in a component with an inner one
    -- is gone when it has been removed, and other names keep their values.
    pub get_uniq_x_value-remove_x_prop :
        (c : I.Component) (key j : Bytes)
        → StandsOnce key c
        → icalcomponent_get_uniq_x_value (icalcomponent_remove_x_prop c key) j
          ≡ (if str_eq key j then none else icalcomponent_get_uniq_x_value c j)
    unfolding icalcomponent_get_uniq_x_value
    get_uniq_x_value-remove_x_prop c key j o =
        let ps = properties_of (I.inner c) in
        let (h, e) = remove_x_prop-properties c key o.has_inner in
        elim (Bool-cases (str_eq key j)) [
          | inl same ↦
              rw (e, same, ← (str_eq_iff key j).0 same)
                (find_x_value_of_none key (remove_x key ps)
                  (omega (arith, count_x-remove_x key ps, o.once)))
          | inr other ↦ rw (e, other) (find_x_value-remove_x_other key j ps other)
        ]
