-- ===== src/Tests/Loading.antt =====
-- The start in a directory of two calendar files among others, the second an entry below the first, with a library that
-- keeps of a component the parent that it names.
use ical_fs.Base.{
  ◌≡◌, refl, ◌∙◌, Bytes, codes, str_eq, strcasecmp_eq, true, Option, none, some, List, [], ◌∷◌,
  arith, if◌then◌else◌, Returns, All, Lacks, strstr, starts_with_str, false,
}
use ical_fs.HashMap.{DistinctNames}
use ical_fs.Store.{Mount}
use ical_fs.Ical.{Ical, summary, parent}
use ical_fs.Ical.Properties.{get_parent_uid, find_parent, is_kind, properties_of}
use ical_fs.Agenda.Sync.{DirEntry, is_ics, ics_names, load_root_node_tree}
use ical_fs.Agenda.Sync.Filtering.{IsIcsFile}
use ical_fs.Agenda.Sync.Marking.{KeepsParent}
use ical_fs.Agenda.Sync.Mounting.{Mounted, load_root_node_tree-Mounted}
use ical_fs.Handlers.Start.{Surroundings, serving, main}
use ical_fs.Handlers.Start.Serving.{main-Mounted}
use ical_fs.Tests.Calendar.{library, Prop, Comp, entry, calendar, plain, relation}
use ical_fs.Tests.Texts.{with_texts, with_texts-KeepsInner}
use ical_fs.Tests.Table.{pairs, pairs-IsLawful}

-- A text is nothing, or a letter and the uid of the parent.
abbrev text_with : Option Bytes → Bytes
text_with none = []
text_with (some uid) = b'P' ∷ uid

abbrev read_text : Bytes → Comp
read_text [] = calendar [] (entry (plain summary (codes "t") ∷ []))
read_text (_ ∷ uid) = calendar [] (entry (plain summary (codes "t") ∷ relation uid parent ∷ []))

abbrev pub relations : Ical
relations = with_texts (λ s. some (read_text s)) (λ c. text_with (get_parent_uid ⦃I = library⦄ c))

parent_read : (o : Option Bytes) → get_parent_uid ⦃I = relations⦄ (read_text (text_with o)) ≡ o
unfolding get_parent_uid find_parent is_kind properties_of strcasecmp_eq
parent_read none = refl
parent_read (some uid) = refl

find_parent_agrees :
    (ps : List Prop) → find_parent ⦃I = library⦄ ps ≡ find_parent ⦃I = relations⦄ ps
unfolding find_parent
find_parent_agrees [] = refl
find_parent_agrees (p ∷ ps) = rw (find_parent_agrees ps) refl

parents_agree : (c : Comp) → get_parent_uid ⦃I = library⦄ c ≡ get_parent_uid ⦃I = relations⦄ c
unfolding get_parent_uid find_parent properties_of
parents_agree (entry ps) = refl
parents_agree (calendar os (entry ps)) = find_parent_agrees ps
parents_agree (calendar os (calendar ps i)) = find_parent_agrees ps

pub relations-KeepsParent : KeepsParent ⦃I = relations⦄
relations-KeepsParent = record {
  inside =
      with_texts-KeepsInner (λ s. some (read_text s))
        (λ c. text_with (get_parent_uid ⦃I = library⦄ c));
  reread = λ c. (
    read_text (text_with (get_parent_uid ⦃I = library⦄ c)),
    refl,
    parent_read (get_parent_uid ⦃I = library⦄ c) ∙ parents_agree c,
  );
}

abbrev two_files : List DirEntry
two_files =
    record { d_name = codes "b.ics"; is_regular = true }
    ∷ record { d_name = codes "notes.txt"; is_regular = true }
    ∷ record { d_name = codes "old.ics"; is_regular = false }
    ∷ record { d_name = codes "c.ics"; is_regular = true }
    ∷ []

two_files-Lacks : All (Lacks b'/') (ics_names two_files)
unfolding ics_names is_ics strstr starts_with_str
two_files-Lacks = ground arith

two_files-DistinctNames : DistinctNames (ics_names two_files)
unfolding str_eq ics_names is_ics strstr starts_with_str
two_files-DistinctNames = (refl, (refl, tt))

abbrev unmounted : Mount pairs
unmounted = record {
  heap = record { cell = λ p. none; next = 0 };
  fuse_root = 0;
  entries_vdir = [];
  vdir = codes "/v";
  file_extension = codes "md";
  files = λ p. some (if str_eq p (codes "/v/c.ics") then codes "Pb" else []);
  can_write = λ p. true;
  can_remove = λ p. true;
  clock = 7;
  uuid = λ n. codes "u";
  uuid_count = 0;
}

load_root_node_tree-Mounted_example :
    Returns
      (λ _ s'. Mounted ⦃I = relations⦄ (IsIcsFile two_files) unmounted s')
      (load_root_node_tree ⦃I = relations⦄ (some two_files) unmounted)
load_root_node_tree-Mounted_example =
    load_root_node_tree-Mounted ⦃I = relations⦄ pairs-IsLawful relations-KeepsParent unmounted
      two_files (λ x. refl) (λ path. refl) two_files-Lacks two_files-DistinctNames

abbrev home : Surroundings
home = record {
  wordexp = λ s. some (codes "/v" ∷ []);
  is_directory = λ p. true;
  readdir = λ p. some two_files;
}

main-Mounted_example :
    Returns
      (λ o s'.
        (o ≡ serving)
        × Mounted ⦃I = relations⦄
            (IsIcsFile two_files)
            (record unmounted { vdir = codes "/v"; file_extension = codes "md" })
            s')
      (main ⦃I = relations⦄ home
        (record { ics_directory = some (codes "~/v"); default_file_extension = none })
        unmounted)
main-Mounted_example =
    main-Mounted ⦃I = relations⦄ pairs-IsLawful relations-KeepsParent unmounted home (codes "~/v")
      (codes "/v") [] none two_files refl refl (ground arith) tt refl (λ x. refl) (λ path. refl)
      two_files-Lacks two_files-DistinctNames
