-- ===== src/Agenda/Sync/Ensuring.antt =====
-- What `ensure_directory` leaves of a mount in which every entry's file can be read.
use ical_fs.Base.{◌≡◌, refl, inl, inr, Bytes, true, some, Bool-cases, Returns, and_then, ◌>>=◌}
use ical_fs.Tree.{Ptr}
use ical_fs.Tree.Links.{content_of}
use ical_fs.HashMap.{HashMap}
use ical_fs.Store.{AgendaEntry, Mount}
use ical_fs.Store.Names.{vdir_name_of}
use ical_fs.Ical.{Ical}
use ical_fs.Ical.Properties.{
  get_parent_uid, is_directory_component, icalcomponent_mark_as_directory,
}
use ical_fs.Entry.{prepared}
use ical_fs.Entry.Stored.{
  file_of, with_file, get_icalcomponent_from_node-Stored, write_ical_file-Stored,
}
use ical_fs.Agenda.Sync.Marking.{KeepsParent, reread-marked}
use ical_fs.Agenda.Sync.{ensure_directory}
use ical_fs.Agenda.Sync.Ready.{named_parent, Ready, file_of_entry, component_in-written}

module _ ⦃I : Ical⦄ {M : HashMap} where
  -- Only files have changed, every file of an entry holds a component, and each entry names the
  -- parent that it named.
  pub record Ensured (s s' : Mount M) : Type 0 where
    pub ready : Ready s'
    pub named_same : (x : Ptr) → named_parent s' x ≡ named_parent s x
    pub rest_same : s' ≡ record s { files = s'.files }

  pub Ensured-refl : (s : Mount M) → Ready s → Ensured s s
  Ensured-refl s r = record { ready = r; named_same = λ x. refl; rest_same = refl }

  with_file-Ensured :
      (s : Mount M) (path text new : Bytes) (c c' : I.Component)
      → Ready s
      → s.files path ≡ some text
      → I.from_string text ≡ some c
      → I.from_string new ≡ some c'
      → get_parent_uid c' ≡ get_parent_uid c
      → Ensured s (with_file path new s)
  unfolding named_parent
  with_file-Ensured s path text new c c' r there read again same =
      let written = component_in-written s path text new c c' there read again same in
      record {
        ready = record {
          is_tree = r.is_tree;
          is_indexed = record { sound = r.is_indexed.sound; complete = r.is_indexed.complete };
          root_live = r.root_live;
          root_top = r.root_top;
          root_empty = r.root_empty;
          readable = λ p e entry.
              let (k, holds) = r.readable p e entry in (written (vdir_name_of s.heap p)).1 k holds;
        };
        named_same = λ x. (written (vdir_name_of s.heap x)).0;
        rest_same = refl;
      }

  -- Where all files can be written, a node with an entry is made a directory without a fault.
  pub ensure_directory-Ensured :
      (s : Mount M) (p : Ptr) (e : AgendaEntry)
      → KeepsParent
      → Ready s
      → ((path : Bytes) → s.can_write path ≡ true)
      → content_of s.heap p ≡ some e
      → Returns (λ _ s'. Ensured s s') (ensure_directory p s)
  unfolding ensure_directory
  ensure_directory-Ensured s p e K r may entry =
      let (c, holds) = r.readable p e entry in
      let (n, text, t, read) = file_of_entry s p e c entry holds in
      elim (Bool-cases (is_directory_component c)) [
        | inl already ↦
            rw
              (
                ensure_directory,
                get_icalcomponent_from_node-Stored s p t,
                ◌>>=◌,
                and_then,
                read,
                already,
              )
              (Ensured-refl s r)
        | inr plain ↦
            let new = icalcomponent_mark_as_directory c in
            let (c', again, same) = reread-marked K s.clock c in
            rw
              (
                ensure_directory,
                get_icalcomponent_from_node-Stored s p t,
                ◌>>=◌,
                and_then,
                read,
                plain,
                write_ical_file-Stored s p new t,
                may (file_of s e),
              )
              (with_file-Ensured s (file_of s e) text (I.as_ical_string (prepared s.clock new)) c c'
                r t.file read again same)
      ]
