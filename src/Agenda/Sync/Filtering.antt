-- ===== src/Agenda/Sync/Filtering.antt =====
-- Which entries of the directory the first loop of `load_root_node_tree` takes.
use ical_fs.Base.{
  ◌≡◌, refl, sym, ◌∙◌, ap, ◌↔◌, ◌⊎◌, inl, inr, Bytes, codes, str_eq_iff, starts_with_str, strstr,
  true, List, [], ◌∷◌, ◌++◌, arith, Bool-cases,
}
use ical_fs.HashMap.{listed}
use ical_fs.Agenda.Sync.{DirEntry, is_ics, ics_names}

-- The text has the other somewhere in it.
abbrev pub Contains : Bytes → Bytes → Type 0
Contains text part = (before : Bytes) × (after : Bytes) × (text ≡ before ++ (part ++ after))

abbrev pub Among : DirEntry → List DirEntry → Type 0
Among entry [] = ⊥
Among entry (e ∷ entries) = (entry ≡ e) ⊎ Among entry entries

-- The directory has a regular file with the name, and ".ics" is in that.
abbrev pub IsIcsFile : List DirEntry → Bytes → Type 0
IsIcsFile entries name =
    (entry : DirEntry) × Among entry entries
    × (entry.d_name ≡ name)
    × (entry.is_regular ≡ true)
    × Contains name (codes ".ics")

starts_with_str_iff :
    (s p : Bytes) → (starts_with_str s p ≡ true) ↔ ((after : Bytes) × (s ≡ p ++ after))
unfolding starts_with_str
starts_with_str_iff s [] = (λ h. (s, refl), λ h. refl)
starts_with_str_iff [] (c ∷ p) = (λ h. cc, λ (after, e). cc)
starts_with_str_iff (d ∷ s) (c ∷ p) = (
  λ h. let (after, e) = (starts_with_str_iff s p).0 (ground arith) in (after, ground (arith, e)),
  λ (after, e). ground (arith, (starts_with_str_iff s p).1 (after, ground (arith, e)), e),
)

strstr_iff : (s part : Bytes) → (strstr s part ≡ true) ↔ Contains s part
unfolding strstr
strstr_iff [] part = (
  λ h. let (after, e) = (starts_with_str_iff [] part).0 h in ([], after, e),
  λ (before, after, e). elim_before before after e,
)
  where
    elim_before :
        (before after : Bytes)
        → ◌≡◌ {A = Bytes} [] (before ++ (part ++ after))
        → starts_with_str [] part ≡ true
    elim_before [] after e = (starts_with_str_iff [] part).1 (after, e)
    elim_before (b ∷ before) after e = cc
strstr_iff (c ∷ s) part = (
  λ h. elim (Bool-cases (starts_with_str (c ∷ s) part)) [
    | inl here ↦ let (after, e) = (starts_with_str_iff (c ∷ s) part).0 here in ([], after, e)
    | inr later ↦
        let (before, after, e) = (strstr_iff s part).0 (ground arith) in
        (c ∷ before, after, ap (λ t. c ∷ t) e)
  ],
  λ (before, after, e). elim_before (strstr_iff s part).1 before after e,
)
  where
    elim_before :
        (Contains s part → strstr s part ≡ true)
        → (before after : Bytes) → c ∷ s ≡ before ++ (part ++ after)
        → strstr (c ∷ s) part ≡ true
    elim_before later [] after e =
        let here = (starts_with_str_iff (c ∷ s) part).1 (after, e) in ground arith
    elim_before later (b ∷ before) after e =
        let found = later (before, after, ground (arith, e)) in ground arith

-- The names that are loaded are those of the regular files with ".ics" in their names.
pub listed-ics_names :
    (entries : List DirEntry) (name : Bytes)
    → (listed name (ics_names entries) ≡ true) ↔ IsIcsFile entries name
unfolding ics_names is_ics
listed-ics_names [] name = (λ h. cc, λ (entry, out, named, regular, contains). absurd out)
listed-ics_names (e ∷ entries) name =
    let more = listed-ics_names entries name in
    (
      λ h. elim (Bool-cases (listed name (ics_names entries))) [
        | inl there ↦
            let (entry, place, named, regular, contains) = more.0 there in
            (entry, inr place, named, regular, contains)
        | inr not_there ↦ elim (Bool-cases (is_ics e)) [
          | inl taken ↦
              let same : name ≡ e.d_name = (str_eq_iff name e.d_name).0 (ground arith) in
              let contains = (strstr_iff e.d_name (codes ".ics")).0 (ground arith) in
              (e, inl refl, sym same, ground arith, rw same contains)
          | inr skipped ↦ absurd (ground arith)
        ]
      ],
      λ (entry, place, named, regular, contains). elim place [
        | inl here ↦
            let found = (strstr_iff name (codes ".ics")).1 contains in
            let at_head : is_ics e ≡ true = ground (
              arith,
              ap (λ (x : DirEntry). x.is_regular) here,
              ap (λ (x : DirEntry). x.d_name) here,
            ) in
            let at_name =
              (str_eq_iff name e.d_name).1 (sym named ∙ ap (λ (x : DirEntry). x.d_name) here) in
            ground arith
        | inr later ↦ let there = more.1 (entry, later, named, regular, contains) in ground arith
      ],
    )
