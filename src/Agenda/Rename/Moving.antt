-- ===== src/Agenda/Rename/Moving.antt =====
-- `rename_node`, the body of `do_agenda_rename`, below a parent that has an entry.
use ical_fs.Base.{
  ℕ, ◌≡◌, refl, ◌∙◌, inl, inr, Bytes, str_eq, str_eq_refl, true, false, Option, none, some, arith,
  Option-cases, ok, and_then, ◌>>=◌, Cmd,
}
use ical_fs.Path.{get_file_extension}
use ical_fs.Tree.{Ptr}
use ical_fs.HashMap.{HashMap}
use ical_fs.Store.{AgendaEntry, Node, Mount, on_heap, get_node_filename}
use ical_fs.Ical.{Ical}
use ical_fs.Ical.Properties.{
  without_parent, remove_parent_child_relationship_from_component,
  set_parent_child_relationship_to_component,
}
use ical_fs.Entry.{prepared}
use ical_fs.Entry.Stored.{
  Stored, file_of, with_file, load-live, write_ical_file-Stored, with_file-Stored,
}
use ical_fs.Entry.Naming.{
  with_summary, with_file_extension, update_summary, update_node_file_extension,
}
use ical_fs.Agenda.Rename.{without_old_parent}
use ical_fs.Status.{Status, done}

module _ ⦃I : Ical⦄ where
  -- The component with the new name, as it has been written once or twice.
  pub named_component : ℕ → Bytes → I.Component → I.Component
  named_component now name c =
      let summarised = prepared now (with_summary name c) in
      elim (get_file_extension name) [
        | none ↦ summarised
        | some ext ↦ prepared now (with_file_extension name summarised)
      ]

  -- A component that may be missing has a uid, if it is there.
  abbrev pub HasUid : Option I.Component → Type 0
  HasUid none = Unit
  HasUid (some c) = (uid : Bytes) × (I.get_uid c ≡ some uid)

  -- The component without its relation to the old parent.
  unfoldable pub unrelated : Option I.Component → I.Component → I.Component
  unrelated none c = c
  unrelated (some old_ics) c = elim (I.get_uid old_ics) [
    | none ↦ c
    | some uid ↦ without_parent uid c
  ]

  -- The text that a rename leaves in the file: below a parent with a component the name as its summary
  -- and extension, no relation to the old parent, and one to the new; at the top level the name only.
  unfoldable pub moved_text :
      ℕ → Bytes → Option I.Component → Option I.Component → I.Component → Bytes
  unfolding named_component
  moved_text now name old_ics none c = I.as_ical_string (named_component now name c)
  moved_text now name old_ics (some parent_ics) c = I.as_ical_string (
      prepared now (
        set_parent_child_relationship_to_component parent_ics
          (unrelated old_ics (named_component now name c))))

pub without_old_parent-unrelated :
    ⦃I : Ical⦄ {M : HashMap} (s : Mount M) (old_ics : Option I.Component) (c : I.Component)
    → HasUid old_ics
    → without_old_parent old_ics c s ≡ ok (unrelated old_ics c) s
unfolding without_old_parent unrelated remove_parent_child_relationship_from_component
without_old_parent-unrelated s none c known = refl
without_old_parent-unrelated s (some old_ics) c (uid, known) =
    rw (without_old_parent, remove_parent_child_relationship_from_component, unrelated, known) refl

module _ ⦃I : Ical⦄ {M : HashMap} (name : Bytes) (child : Ptr) (s : Mount M) {n : Node}
    {e : AgendaEntry} {text : Bytes} (t : Stored s child n e text) (named : e.filename ≡ name)
    (may : s.can_write (file_of s e) ≡ true) where
  shown_filename : get_node_filename n ≡ name
  unfolding get_node_filename
  shown_filename = ground (arith, t.content)

  update_summary-writes :
      (c : I.Component)
      → update_summary c child s
        ≡ ok
            (prepared s.clock (with_summary name c), done 0)
            (with_file (file_of s e) (I.as_ical_string (prepared s.clock (with_summary name c))) s)
  unfolding update_summary
  update_summary-writes c =
      rw
        (
          and_then,
          ◌>>=◌,
          on_heap,
          load-live child s.heap t.cell,
          shown_filename,
          write_ical_file-Stored s child (with_summary name c) t,
          may,
        )
        refl

  -- The extension is written only where the name has one.
  update_node_file_extension-writes :
      (c : I.Component)
      → (F : Bytes → Option Bytes) × (status : Status) × (update_node_file_extension c child s
          ≡ ok
              (
                elim (get_file_extension name) [
                  | none ↦ c
                  | some ext ↦ prepared s.clock (with_file_extension name c)
                ],
                status,
              )
              (record s { files = F }))
        × (F (file_of s e)
            ≡ some (elim (get_file_extension name) [
              | none ↦ text
              | some ext ↦ I.as_ical_string (prepared s.clock (with_file_extension name c))
            ]))
        × ((path : Bytes) → str_eq path (file_of s e) ≡ false → F path ≡ s.files path)
  unfolding update_node_file_extension
  update_node_file_extension-writes c = elim (Option-cases (get_file_extension name)) [
    | inl bare ↦ (
      s.files,
      done 0,
      rw (and_then, ◌>>=◌, on_heap, load-live child s.heap t.cell, shown_filename, bare) refl,
      rw bare t.file,
      λ path other. refl,
    )
    | inr (ext, there) ↦
        let new = I.as_ical_string (prepared s.clock (with_file_extension name c)) in
        (
          (with_file (file_of s e) new s).files,
          done 0,
          rw
              (
                and_then,
                ◌>>=◌,
                on_heap,
                load-live child s.heap t.cell,
                shown_filename,
                there,
                shown_filename,
                write_ical_file-Stored s child (with_file_extension name c) t,
                may,
              )
              refl,
          rw there (ground (arith, str_eq_refl (file_of s e))),
          λ path other. ground arith,
        )
  ]

module _ ⦃I : Ical⦄ {M : HashMap} (name : Bytes) (child : Ptr) (s : Mount M) {n : Node}
    {e : AgendaEntry} {text : Bytes} (t : Stored s child n e text) (named : e.filename ≡ name)
    (may : s.can_write (file_of s e) ≡ true) where
  -- Both writes: the component is the one with the new name, and the file has its text.
  pub names_written :
      (c : I.Component) {R : Type 0} (k : I.Component → Cmd (Mount M) R)
      → (F : Bytes → Option Bytes) × (and_then (update_summary c child s) (λ (first, _).
            λ s1. and_then (update_node_file_extension first child s1) (λ (second, _). k second))
          ≡ k (named_component s.clock name c) (record s { files = F }))
        × (F (file_of s e) ≡ some (I.as_ical_string (named_component s.clock name c)))
        × ((path : Bytes) → str_eq path (file_of s e) ≡ false → F path ≡ s.files path)
  unfolding named_component
  names_written c k =
      let first = prepared s.clock (with_summary name c) in
      let s1 = with_file (file_of s e) (I.as_ical_string first) s in
      let (F, status, ran, left, others) =
        update_node_file_extension-writes name child s1
          (with_file-Stored s child (I.as_ical_string first) t) named may first in
      (
        F,
        rw (update_summary-writes name child s t named may c, ran) refl,
        left ∙ text_named first,
        λ path other. others path other ∙ ground arith,
      )
    where
      text_named :
          (first : I.Component)
          → some (elim (get_file_extension name) [
            | none ↦ I.as_ical_string first
            | some ext ↦ I.as_ical_string (prepared s.clock (with_file_extension name first))
          ])
            ≡ some (
                I.as_ical_string (elim (get_file_extension name) [
                  | none ↦ first
                  | some ext ↦ prepared s.clock (with_file_extension name first)
                ]))
      text_named first = elim (Option-cases (get_file_extension name)) [
        | inl bare ↦ rw bare refl
        | inr (ext, there) ↦ rw there refl
      ]
