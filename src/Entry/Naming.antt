-- ===== src/Entry/Naming.antt =====
-- The file name that an entry shows and the summary and extension that it keeps in the file.
use mathlib.Core.Option
use ical_fs.Base.{
  Bytes, str_eq, Option, none, some, [], ◌∷◌, ◌++◌, if◌then◌else◌, Cmd, pure, ok, ◌>>=◌,
}
use ical_fs.Path.{without_file_extension, get_file_extension, get_filename, append_path}
use ical_fs.Tree.{Ptr, load}
use ical_fs.HashMap.{HashMap}
use ical_fs.Store.{Mount, AgendaEntry, on_heap, get_node_filename}
use ical_fs.Ical.{Ical}
use ical_fs.Ical.Properties.{
  is_directory_component, icalcomponent_get_file_extension, icalcomponent_set_file_extension,
}
use ical_fs.Entry.{prepared, write_ical_file, parse_ics_file}
use ical_fs.Status.{Status, done}

module _ ⦃I : Ical⦄ where
  -- A directory's summary is the whole name, a file's the name without its extension.
  unfoldable pub with_summary : Bytes → I.Component → I.Component
  with_summary filename ics =
      if is_directory_component ics
      then I.set_summary ics filename
      else I.set_summary ics (without_file_extension filename)

  -- An extension that is there replaces the one kept; a name without one leaves it.
  unfoldable pub with_file_extension : Bytes → I.Component → I.Component
  with_file_extension filename ics = elim (get_file_extension filename) [
    | none ↦ ics
    | some ext ↦ icalcomponent_set_file_extension ics ext
  ]

  -- The name of a file from its summary and extension, where "" is no extension.
  unfoldable pub shown_name : Bytes → Bytes → Bytes
  shown_name summary extension =
      if str_eq extension [] then summary else summary ++ (b'.' ∷ extension)

  unfoldable pub filename_of_component : Bytes → I.Component → Bytes → Bytes
  filename_of_component default_extension component summary =
      if is_directory_component component
      then summary
      else shown_name summary (elim (icalcomponent_get_file_extension component) [
        | some extension ↦ extension
        | none ↦ default_extension
      ])

module _ ⦃I : Ical⦄ {M : HashMap} where
  -- `write_ical_file` changes the component that it is handed; what the caller goes on with is the
  -- component as it was printed.
  unfoldable pub update_summary : I.Component → Ptr → Cmd (Mount M) (I.Component × Status)
  update_summary ics node = do
    n ← on_heap (load node)
    let ics' = with_summary (get_node_filename n) ics
    written ← write_ical_file node ics'
    λ s. ok (prepared s.clock ics', written) s

  unfoldable pub update_node_file_extension :
      I.Component → Ptr → Cmd (Mount M) (I.Component × Status)
  update_node_file_extension ics node = do
    n ← on_heap (load node)
    let ics' = with_file_extension (get_node_filename n) ics
    elim (get_file_extension (get_node_filename n)) [
      | none ↦ pure (ics, done 0)
      | some ext ↦ do
        written ← write_ical_file node ics'
        λ s. ok (prepared s.clock ics', written) s
    ]

  unfoldable pub parse_ics_to_agenda_entry : Bytes → Cmd (Mount M) (Option AgendaEntry)
  parse_ics_to_agenda_entry vdir_filepath = do
    component ← parse_ics_file vdir_filepath
    λ s.
        ok
          (elim component [
            | none ↦ none
            | some c ↦
                if I.is_journal c
                then Option.map
                    (λ summary. record {
                      filename = filename_of_component s.file_extension c summary;
                      filename_vdir = get_filename vdir_filepath;
                    })
                    (I.get_summary c)
                else none
          ])
          s

  -- A file that is not there gives no entry.
  unfoldable pub load_agenda_entry_from_ics_file : Bytes → Cmd (Mount M) (Option AgendaEntry)
  load_agenda_entry_from_ics_file filename s =
      let filepath = append_path s.vdir filename in
      elim (s.files filepath) [
        | none ↦ ok none s
        | some text ↦ parse_ics_to_agenda_entry filepath s
      ]
