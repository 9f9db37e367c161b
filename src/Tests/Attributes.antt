-- ===== src/Tests/Attributes.antt =====
-- The attributes of the user, with a library whose texts are the X- properties of the inner component.
use ical_fs.Base.{
  ℕ, zero, suc, ◌≡◌, refl, ap, ◌∙◌, ◌≢◌, Bytes, codes, str_eq, starts_with_str, none, some, Option,
  List, [], ◌∷◌, ◌++◌, false, arith, ok,
}
use ical_fs.Ical.{Ical, PropertyKind, x}
use ical_fs.Ical.Properties.{
  is_kind, is_x_named, find_x_value, properties_of, custom_property_prefix,
  icalcomponent_get_uniq_x_value, icalcomponent_get_custom_x_value,
}
use ical_fs.Ical.Properties.Unique.{StandsOnce, count_x}
use ical_fs.Store.{Mount}
use ical_fs.Status.{Status, done, error, enodata}
use ical_fs.Handlers.Attributes.{attribute_of, custom, fuse_getxattr, fuse_removexattr}
use ical_fs.Entry.XValues.{KeepsXValues}
use ical_fs.Handlers.Writable.{Writable}
use ical_fs.Handlers.Attributes.Custom.{fuse_getxattr-fuse_removexattr}
use ical_fs.Tests.Calendar.{
  Prop, custom, relation, marked, state, plain, Comp, entry, calendar, inner_of, properties_in,
  kind_of,
}
use ical_fs.Tests.Texts.{with_texts, with_texts-KeepsInner}
use ical_fs.Tests.Handling.{a-Found, a_entry, a_node}
use ical_fs.Tests.Sample.{table, mount}

-- Bytes moved by two, in front of a text.
abbrev lifted : Bytes → Bytes → Bytes
lifted [] t = t
lifted (b ∷ bs) t = suc (suc b) ∷ lifted bs t

-- A text has 1, the name, 0 and the value of each X- property.
abbrev print : List Prop → Bytes
print [] = []
print (custom n v ∷ ps) = 1 ∷ lifted n (0 ∷ lifted v (print ps))
print (relation u r ∷ ps) = print ps
print (marked c ∷ ps) = print ps
print (state c ∷ ps) = print ps
print (plain k v ∷ ps) = print ps

-- The bytes up to the next mark, the value behind it, and the properties behind that.
abbrev scan : Bytes → Bytes × Bytes × List Prop
scan [] = ([], [], [])
scan (zero ∷ t) = let (here, v, ps) = scan t in ([], here, ps)
scan (suc zero ∷ t) = let (here, v, ps) = scan t in ([], [], custom here v ∷ ps)
scan (suc (suc b) ∷ t) = let (here, v, ps) = scan t in (b ∷ here, v, ps)

abbrev customs : List Prop → List Prop
customs [] = []
customs (custom n v ∷ ps) = custom n v ∷ customs ps
customs (relation u r ∷ ps) = customs ps
customs (marked c ∷ ps) = customs ps
customs (state c ∷ ps) = customs ps
customs (plain k v ∷ ps) = customs ps

scan-lifted : (bs t : Bytes) → scan (lifted bs t) ≡ (bs ++ (scan t).0, (scan t).1, (scan t).2)
scan-lifted [] t = refl
scan-lifted (b ∷ bs) t = rw (scan-lifted bs t) refl

append_none : (bs : Bytes) → bs ++ [] ≡ bs
append_none [] = refl
append_none (b ∷ bs) = ap (λ t. b ∷ t) (append_none bs)

scan-print : (ps : List Prop) → scan (print ps) ≡ ([], [], customs ps)
scan-print [] = refl
scan-print (custom n v ∷ ps) =
    let value : scan (lifted v (print ps)) ≡ (v, [], customs ps) =
      scan-lifted v (print ps) ∙ rw (scan-print ps, append_none v) refl in
    let behind : scan (0 ∷ lifted v (print ps)) ≡ ([], v, customs ps) =
      ap (λ r. ([], r.0, r.2)) value in
    let name : scan (lifted n (0 ∷ lifted v (print ps))) ≡ (n, v, customs ps) =
      scan-lifted n (0 ∷ lifted v (print ps)) ∙ rw (behind, append_none n) refl in
    ap (λ r. ([], [], custom r.0 r.1 ∷ r.2)) name
scan-print (relation u r ∷ ps) = scan-print ps
scan-print (marked c ∷ ps) = scan-print ps
scan-print (state c ∷ ps) = scan-print ps
scan-print (plain k v ∷ ps) = scan-print ps

abbrev read_text : Bytes → Option Comp
read_text t = some (calendar [] (entry (scan t).2))

abbrev inside_of : Option Comp → List Prop
inside_of none = []
inside_of (some i) = properties_in i

abbrev attributes : Ical
attributes = with_texts read_text (λ c. print (inside_of (inner_of c)))

plain_not_x : (k : PropertyKind) (v : Bytes) → is_kind (kind_of (plain k v)) x ≡ false
unfolding is_kind
plain_not_x PropertyKind.x v = refl
plain_not_x PropertyKind.related_to v = refl
plain_not_x PropertyKind.last_modified v = refl
plain_not_x PropertyKind.categories v = refl
plain_not_x PropertyKind.class v = refl
plain_not_x PropertyKind.status v = refl
plain_not_x PropertyKind.description v = refl
plain_not_x PropertyKind.summary v = refl
plain_not_x PropertyKind.dtstart v = refl
plain_not_x PropertyKind.uid v = refl
plain_not_x PropertyKind.other v = refl

find_x_value-customs :
    (key : Bytes) (ps : List Prop)
    → find_x_value ⦃I = attributes⦄ key (customs ps) ≡ find_x_value ⦃I = attributes⦄ key ps
unfolding find_x_value is_x_named is_kind
find_x_value-customs key [] = refl
find_x_value-customs key (custom n v ∷ ps) = rw (find_x_value-customs key ps) refl
find_x_value-customs key (relation u r ∷ ps) = find_x_value-customs key ps
find_x_value-customs key (marked c ∷ ps) = find_x_value-customs key ps
find_x_value-customs key (state c ∷ ps) = find_x_value-customs key ps
find_x_value-customs key (plain k v ∷ ps) = rw (plain_not_x k v) (find_x_value-customs key ps)

inside_properties : (o : Option Comp) → inside_of o ≡ properties_of ⦃I = attributes⦄ o
unfolding properties_of
inside_properties none = refl
inside_properties (some i) = refl

attributes-KeepsXValues : KeepsXValues ⦃I = attributes⦄
unfolding icalcomponent_get_uniq_x_value properties_of
attributes-KeepsXValues = record {
  inside = with_texts-KeepsInner read_text (λ c. print (inside_of (inner_of c)));
  reread = λ c. (
    calendar [] (entry (customs (inside_of (inner_of c)))),
    ap (λ r. some (calendar [] (entry r.2))) (scan-print (inside_of (inner_of c))),
    λ key filled.
        find_x_value-customs key (inside_of (inner_of c))
        ∙ ap (find_x_value ⦃I = attributes⦄ key) (inside_properties (inner_of c)),
  );
}

abbrev note_text : Bytes
note_text = print (
    custom (codes "X-CALDAVFS-CUSTOM-note") (codes "old")
    ∷ custom (codes "X-CALDAVFS-CUSTOM-mood") (codes "good")
    ∷ [])

abbrev noted : Mount table
noted = record mount { files = λ p. some note_text }

abbrev note_component : Comp
note_component = calendar [] (entry (scan note_text).2)

noted-Writable :
    Writable ⦃I = attributes⦄ (codes "/work/a.md") 2 noted a_node a_entry note_component
noted-Writable = record {
  text = note_text;
  found = record {
    is_tree = a-Found.is_tree;
    root_live = a-Found.root_live;
    short = a-Found.short;
    chain = a-Found.chain;
  };
  stored = record { cell = refl; content = refl; file = refl };
  parsed = refl;
  may = refl;
}

note_once : StandsOnce ⦃I = attributes⦄ (custom_property_prefix ++ codes "note") note_component
unfolding count_x is_x_named is_kind properties_of str_eq
note_once = record { has_inner = λ e. cc; once = ground arith }

note_named : attribute_of (codes "user.note") ≡ custom (codes "note")
unfolding attribute_of str_eq starts_with_str
note_named = refl

fuse_getxattr-fuse_removexattr_example :
    (s' : Mount table) × (fuse_removexattr ⦃I = attributes⦄
        (codes "/work/a.md")
        (codes "user.note")
        noted
      ≡ ok (done 0) s')
    × ((size : ℕ)
        → fuse_getxattr ⦃I = attributes⦄ (codes "/work/a.md") (codes "user.note") size s'
          ≡ ok (error enodata, []) s')
    × ((other j : Bytes) (size : ℕ) (r : Status × Bytes)
        → attribute_of other ≡ custom j
        → str_eq (codes "note") j ≡ false
        → icalcomponent_get_custom_x_value ⦃I = attributes⦄ note_component j ≢ some []
        → fuse_getxattr ⦃I = attributes⦄ (codes "/work/a.md") other size noted ≡ ok r noted
        → fuse_getxattr ⦃I = attributes⦄ (codes "/work/a.md") other size s' ≡ ok r s')
fuse_getxattr-fuse_removexattr_example =
    fuse_getxattr-fuse_removexattr ⦃I = attributes⦄ (codes "/work/a.md") 2 attributes-KeepsXValues
      noted note_component (codes "user.note") (codes "note") noted-Writable note_named note_once
