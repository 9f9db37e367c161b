-- ===== src/Entry/Prepared.antt =====
-- What `write_ical_file` leaves of the inner component before it prints an entry.
use ical_fs.Base.{ℕ, ◌≡◌, refl, sym, ap, ◌∙◌, ◌⊎◌, inl, inr, some, List, [], Bool-cases}
use ical_fs.Ical.{Ical, IsLawfulIcal, description}
use ical_fs.Ical.Properties.{is_string, properties_of}
use ical_fs.Entry.{remove_first, change_inner, set_first_modified, prepared}

module _ ⦃I : Ical⦄ where
  -- What is relied on of libical, beside its laws: a change of the properties of the component that
  -- `icalcomponent_get_inner` gives is seen in the inner component, where that is the same, or else
  -- leaves it alone.
  pub record KeepsInner : Type 0 where
    pub lawful : IsLawfulIcal I
    pub inner-with_get_inner :
        (c : I.Component) (ps : List I.Property)
        → (I.inner (I.with_get_inner c (I.with_properties (I.get_inner c) ps)) ≡ I.inner c)
          ⊎ ((I.inner c ≡ some (I.get_inner c))
              × (I.inner (I.with_get_inner c (I.with_properties (I.get_inner c) ps))
                  ≡ some (I.with_properties (I.get_inner c) ps)))

  -- What is read from the inner component, and is not its description, is read as before.
  pub prepared-inner :
      {A : Type 0} (K : KeepsInner) (read : List I.Property → A) (now : ℕ) (c : I.Component)
      → ((ps : List I.Property) → read (remove_first description ps) ≡ read ps)
      → read (properties_of (I.inner (prepared now c))) ≡ read (properties_of (I.inner c))
  unfolding prepared change_inner properties_of
  prepared-inner K read now c blind =
      let stamped = I.with_properties c (set_first_modified now (I.properties c)) in
      let inside = I.get_inner stamped in
      let ps = remove_first description (I.properties inside) in
      let outer : I.inner stamped ≡ I.inner c =
        K.lawful.inner-with_properties c (set_first_modified now (I.properties c)) in
      elim (Bool-cases (is_string (I.get_description inside) [])) [
        | inr other ↦ rw (prepared, other, outer) refl
        | inl empty ↦ elim (K.inner-with_get_inner stamped ps) [
          | inl apart ↦ rw (prepared, empty, apart, outer) refl
          | inr (here, after) ↦
              rw
                (
                  prepared,
                  empty,
                  after,
                  K.lawful.properties-with_properties inside ps,
                  blind (I.properties inside),
                )
                (ap (λ o. read (properties_of o)) (sym here ∙ outer))
        ]
      ]
