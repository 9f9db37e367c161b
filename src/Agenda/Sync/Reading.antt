-- ===== src/Agenda/Sync/Reading.antt =====
-- What `load_agenda_entry_from_ics_file` reads a file of the vdir as.
use mathlib.Core.Option
use ical_fs.Base.{
  ◌≡◌, refl, sym, ap, ◌∙◌, inl, inr, Bytes, Option, none, some, Lacks, Option-cases, Bool-cases, ok,
  and_then, ◌>>=◌, if◌then◌else◌,
}
use ical_fs.Path.{append_path}
use ical_fs.Path.Names.{append_path_parts}
use ical_fs.Tree.{Ptr, Heap}
use ical_fs.HashMap.{HashMap}
use ical_fs.Store.{AgendaEntry, Mount}
use ical_fs.Store.Creation.{grown}
use ical_fs.Ical.{Ical}
use ical_fs.Entry.{parse_ics_file}
use ical_fs.Entry.Naming.{
  filename_of_component, parse_ics_to_agenda_entry, load_agenda_entry_from_ics_file,
}

module _ ⦃I : Ical⦄ {M : HashMap} where
  -- What a file of the vdir is read as.
  entry_of : Mount M → Bytes → I.Component → Option AgendaEntry
  entry_of s name c =
      if I.is_journal c
      then Option.map
          (λ summary. record {
            filename = filename_of_component s.file_extension c summary;
            filename_vdir = name;
          })
          (I.get_summary c)
      else none

  unfoldable pub read_entry : Mount M → Bytes → Option AgendaEntry
  unfolding entry_of
  read_entry s name = elim (s.files (append_path s.vdir name)) [
    | none ↦ none
    | some text ↦ elim (I.from_string text) [ none ↦ none | some c ↦ entry_of s name c ]
  ]

  pub load_agenda_entry_from_ics_file-reads :
      (s : Mount M) (name : Bytes)
      → Lacks b'/' name
      → load_agenda_entry_from_ics_file name s ≡ ok (read_entry s name) s
  unfolding load_agenda_entry_from_ics_file read_entry parse_ics_to_agenda_entry parse_ics_file
      entry_of
  load_agenda_entry_from_ics_file-reads s name l =
      elim (Option-cases (s.files (append_path s.vdir name))) [
        | inl missing ↦ rw (load_agenda_entry_from_ics_file, read_entry, missing) refl
        | inr (text, there) ↦ elim (Option-cases (I.from_string text)) [
          | inl bad ↦
              rw
                (
                  load_agenda_entry_from_ics_file, read_entry, there, parse_ics_to_agenda_entry,
                  parse_ics_file, there, ◌>>=◌, and_then, bad,
                )
                refl
          | inr (c, read) ↦
              rw
                (
                  load_agenda_entry_from_ics_file,
                  read_entry,
                  there,
                  parse_ics_to_agenda_entry,
                  parse_ics_file,
                  there,
                  ◌>>=◌,
                  and_then,
                  read,
                  entry_of,
                  (append_path_parts s.vdir name l).0,
                )
                refl
        ]
      ]

  entry_of-filename_vdir :
      (s : Mount M) (name : Bytes) (c : I.Component) (e : AgendaEntry)
      → entry_of s name c ≡ some e
      → e.filename_vdir ≡ name
  unfolding entry_of
  entry_of-filename_vdir s name c e r = elim (Bool-cases (I.is_journal c)) [
    | inl journal ↦ elim (Option-cases (I.get_summary c)) [
      | inl nothing ↦
          let none_read : entry_of s name c ≡ none = rw (entry_of, journal, nothing) refl in cc
      | inr (summary, there) ↦
          let new : AgendaEntry = record {
            filename = filename_of_component s.file_extension c summary;
            filename_vdir = name;
          } in
          let read : entry_of s name c ≡ some new = rw (entry_of, journal, there) refl in
          let same : e ≡ new = cc (r, read) in ap (λ (x : AgendaEntry). x.filename_vdir) same
    ]
    | inr other ↦ let none_read : entry_of s name c ≡ none = rw (entry_of, other) refl in cc
  ]

  pub read_entry-filename_vdir :
      (s : Mount M) (name : Bytes) (e : AgendaEntry)
      → read_entry s name ≡ some e
      → e.filename_vdir ≡ name
  unfolding read_entry
  read_entry-filename_vdir s name e r = elim (Option-cases (s.files (append_path s.vdir name))) [
    | inl missing ↦ let none_read : read_entry s name ≡ none = rw (read_entry, missing) refl in cc
    | inr (text, there) ↦ elim (Option-cases (I.from_string text)) [
      | inl bad ↦ let none_read : read_entry s name ≡ none = rw (read_entry, there, bad) refl in cc
      | inr (c, read) ↦
          let step : read_entry s name ≡ entry_of s name c = rw (read_entry, there, read) refl in
          entry_of-filename_vdir s name c e (sym step ∙ r)
    ]
  ]

  -- What a file is read as does not depend on the nodes that there are.
  pub read_entry_again :
      (s : Mount M) (entry : AgendaEntry) (m : M.Map) (name : Bytes)
      → read_entry (record s { heap = grown entry s.heap; entries_vdir = m }) name
        ≡ read_entry s name
  unfolding read_entry entry_of
  read_entry_again s entry m name = refl

  pub read_entry_anywhere :
      (s : Mount M) (h : Heap AgendaEntry) (root : Ptr) (m : M.Map) (name : Bytes)
      → read_entry (record s { heap = h; fuse_root = root; entries_vdir = m }) name
        ≡ read_entry s name
  unfolding read_entry entry_of
  read_entry_anywhere s h root m name = refl

  -- A file that is read as an entry holds a component.
  pub read_entry-component :
      (s : Mount M) (name : Bytes) (e : AgendaEntry)
      → read_entry s name ≡ some e
      → (text : Bytes) × (c : I.Component) × (s.files (append_path s.vdir name) ≡ some text)
        × (I.from_string text ≡ some c)
  unfolding read_entry
  read_entry-component s name e r = elim (Option-cases (s.files (append_path s.vdir name))) [
    | inl missing ↦ let none_read : read_entry s name ≡ none = rw (read_entry, missing) refl in cc
    | inr (text, there) ↦ elim (Option-cases (I.from_string text)) [
      | inl bad ↦ let none_read : read_entry s name ≡ none = rw (read_entry, there, bad) refl in cc
      | inr (c, read) ↦ (text, c, there, read)
    ]
  ]
