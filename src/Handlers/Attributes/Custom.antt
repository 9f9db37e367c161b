-- ===== src/Handlers/Attributes/Custom.antt =====
-- The attributes of the user: `fuse_setxattr` and `fuse_removexattr`, and `fuse_getxattr` after them.
use ical_fs.Base.{
  ℕ, ◌≡◌, refl, sym, ap, ◌∙◌, ◌≢◌, Bytes, str_eq, str_eq_refl, false, none, some, [], ◌++◌, ok,
  and_then, ◌>>=◌,
}
use ical_fs.Tree.{Ptr}
use ical_fs.HashMap.{HashMap}
use ical_fs.Store.{AgendaEntry, Node, Mount}
use ical_fs.Lookup.Stable.{get_node_by_path-Found}
use ical_fs.Ical.{Ical}
use ical_fs.Ical.Properties.{
  custom_property_prefix, icalcomponent_get_custom_x_value, icalcomponent_remove_custom_prop,
}
use ical_fs.Ical.Properties.Unique.{StandsOnce}
use ical_fs.Ical.Properties.Attributes.{get_custom_x_value-remove_custom_prop}
use ical_fs.Entry.{prepared}
use ical_fs.Entry.Stored.{
  file_of, with_file, get_icalcomponent_from_node-Stored, write_ical_file-Stored,
}
use ical_fs.Entry.XValues.{KeepsXValues, get_uniq_x_value-prepared}
use ical_fs.Handlers.Writable.{Writable, Writable-with_file}
use ical_fs.Status.{Status, done, error, enodata}
use ical_fs.Handlers.Attributes.{
  custom, attribute_of, shown_any, get_attribute, get_custom, remove_attribute, remove_custom,
  change_custom, fuse_getxattr, fuse_removexattr,
}

module _ ⦃I : Ical⦄ {M : HashMap} (path : Bytes) (node : Ptr) {n : Node} {e : AgendaEntry} where
  fuse_getxattr-custom :
      (s : Mount M) (c : I.Component) (name k : Bytes) (size : ℕ)
      → Writable path node s n e c
      → attribute_of name ≡ custom k
      → fuse_getxattr path name size s
        ≡ ok (shown_any size (icalcomponent_get_custom_x_value c k)) s
  unfolding fuse_getxattr get_attribute get_custom
  fuse_getxattr-custom s c name k size w named =
      rw
        (
          get_node_by_path-Found s path node w.found,
          ◌>>=◌,
          and_then,
          named,
          get_icalcomponent_from_node-Stored s node w.stored,
          w.parsed,
        )
        refl

  change_custom-done :
      (s : Mount M) (c : I.Component) (f : I.Component → I.Component)
      → Writable path node s n e c
      → change_custom node f s
        ≡ ok (done 0) (with_file (file_of s e) (I.as_ical_string (prepared s.clock (f c))) s)
  unfolding change_custom
  change_custom-done s c f w =
      rw
        (
          ◌>>=◌,
          and_then,
          get_icalcomponent_from_node-Stored s node w.stored,
          w.parsed,
          write_ical_file-Stored s node (f c) w.stored,
          w.may,
        )
        refl

  -- After the component has been changed, written and read again, an attribute that had not become
  -- empty is shown with its new value.
  shown-changed :
      (K : KeepsXValues) (s : Mount M) (c : I.Component) (f : I.Component → I.Component)
      → Writable path node s n e c
      → let s' = with_file (file_of s e) (I.as_ical_string (prepared s.clock (f c))) s in
        (name k : Bytes) (size : ℕ)
        → attribute_of name ≡ custom k
        → icalcomponent_get_custom_x_value (f c) k ≢ some []
        → fuse_getxattr path name size s'
          ≡ ok (shown_any size (icalcomponent_get_custom_x_value (f c) k)) s'
  unfolding icalcomponent_get_custom_x_value
  shown-changed K s c f w name k size named filled =
      let (c', again, same) = K.reread (prepared s.clock (f c)) in
      let s' = with_file (file_of s e) (I.as_ical_string (prepared s.clock (f c))) s in
      let before = get_uniq_x_value-prepared K s.clock (f c) (custom_property_prefix ++ k) in
      let kept =
        same (custom_property_prefix ++ k) (λ empty. filled (sym before ∙ empty)) ∙ before in
      fuse_getxattr-custom s' c' name k size
        (Writable-with_file path node s (I.as_ical_string (prepared s.clock (f c))) c c' w again)
        named
      ∙ ap (λ v. ok (shown_any size v) s') kept

  -- One that the change left alone is shown as before.
  shown_as_before :
      (K : KeepsXValues) (s : Mount M) (c : I.Component) (f : I.Component → I.Component)
      → Writable path node s n e c
      → let s' = with_file (file_of s e) (I.as_ical_string (prepared s.clock (f c))) s in
        (other j : Bytes) (size : ℕ) (r : Status × Bytes)
        → attribute_of other ≡ custom j
        → icalcomponent_get_custom_x_value (f c) j ≡ icalcomponent_get_custom_x_value c j
        → icalcomponent_get_custom_x_value c j ≢ some []
        → fuse_getxattr path other size s ≡ ok r s
        → fuse_getxattr path other size s' ≡ ok r s'
  shown_as_before K s c f w other j size r at same filled before =
      let s' = with_file (file_of s e) (I.as_ical_string (prepared s.clock (f c))) s in
      let was = fuse_getxattr-custom s c other j size w at in
      let mine : shown_any size (icalcomponent_get_custom_x_value c j) ≡ r = cc (before, was) in
      shown-changed K s c f w other j size at (λ empty. filled (sym same ∙ empty))
      ∙ ap (λ v. ok v s') (ap (shown_any size) same ∙ mine)

  module _ (K : KeepsXValues) (s : Mount M) (c : I.Component) (name k : Bytes)
      (w : Writable path node s n e c) (named : attribute_of name ≡ custom k)
      (once : StandsOnce (custom_property_prefix ++ k) c) where
    -- Given what KeepsXValues relies on, let a path lead to an entry whose file can be written and is
    -- parsed as a component, in which an attribute of the user stands at most once. It is removed,
    -- and reported as missing from then on; every other attribute of the user that had a value, not
    -- an empty one, or none, is shown as before.
    pub fuse_getxattr-fuse_removexattr :
        (s' : Mount M) × (fuse_removexattr path name s ≡ ok (done 0) s')
        × ((size : ℕ) → fuse_getxattr path name size s' ≡ ok (error enodata, []) s')
        × ((other j : Bytes) (size : ℕ) (r : Status × Bytes)
            → attribute_of other ≡ custom j
            → str_eq k j ≡ false
            → icalcomponent_get_custom_x_value c j ≢ some []
            → fuse_getxattr path other size s ≡ ok r s
            → fuse_getxattr path other size s' ≡ ok r s')
    unfolding fuse_removexattr remove_attribute remove_custom
    fuse_getxattr-fuse_removexattr =
        let f = λ (ic : I.Component). icalcomponent_remove_custom_prop ic k in
        let s' = with_file (file_of s e) (I.as_ical_string (prepared s.clock (f c))) s in
        let law = λ (j : Bytes). get_custom_x_value-remove_custom_prop K.inside.lawful c k j once in
        let gone : icalcomponent_get_custom_x_value (f c) k ≡ none =
          law k ∙ rw (str_eq_refl k) refl in
        (
          s',
          rw (◌>>=◌, and_then, get_node_by_path-Found s path node w.found, named)
              (change_custom-done s c f w),
          λ size.
              shown-changed K s c f w name k size named (λ empty. cc (empty, gone))
              ∙ ap (λ v. ok (shown_any size v) s') gone,
          λ other j size r at apart.
              shown_as_before K s c f w other j size r at (law j ∙ rw apart refl),
        )
