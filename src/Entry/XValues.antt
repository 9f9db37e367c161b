-- ===== src/Entry/XValues.antt =====
-- The X- values of an entry, when it is written and read again.
use ical_fs.Base.{ℕ, ◌≡◌, refl, ◌≢◌, Bytes, true, false, some, List, [], ◌∷◌, arith}
use ical_fs.Ical.{Ical, PropertyKind, x, description}
use ical_fs.Ical.Properties.{is_kind, is_x_named, find_x_value, icalcomponent_get_uniq_x_value}
use ical_fs.Entry.{remove_first, prepared}
use ical_fs.Entry.Prepared.{KeepsInner, prepared-inner}

module _ ⦃I : Ical⦄ where
  -- What is relied on of libical: what KeepsInner says, and that a printed component is parsed again,
  -- with the X- values that it had, but for empty ones.
  pub record KeepsXValues : Type 0 where
    pub inside : KeepsInner
    pub reread :
        (c : I.Component)
        → (c' : I.Component) × (I.from_string (I.as_ical_string c) ≡ some c')
          × ((key : Bytes)
              → icalcomponent_get_uniq_x_value c key ≢ some []
              → icalcomponent_get_uniq_x_value c' key ≡ icalcomponent_get_uniq_x_value c key)

  description_no_x : (k : PropertyKind) → is_kind k description ≡ true → is_kind k x ≡ false
  unfolding is_kind
  description_no_x description h = refl
  description_no_x _ h = cc

  find_x_value-remove_first :
      (key : Bytes) (ps : List I.Property)
      → find_x_value key (remove_first description ps) ≡ find_x_value key ps
  unfolding find_x_value remove_first is_x_named
  find_x_value-remove_first key [] = refl
  find_x_value-remove_first key (p ∷ ps) =
      ground (arith, find_x_value-remove_first key ps, description_no_x (I.kind p))

  pub get_uniq_x_value-prepared :
      (K : KeepsXValues) (now : ℕ) (c : I.Component) (key : Bytes)
      → icalcomponent_get_uniq_x_value (prepared now c) key ≡ icalcomponent_get_uniq_x_value c key
  unfolding icalcomponent_get_uniq_x_value
  get_uniq_x_value-prepared K now c key =
      prepared-inner K.inside (find_x_value key) now c (find_x_value-remove_first key)
