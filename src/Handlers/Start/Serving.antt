-- ===== src/Handlers/Start/Serving.antt =====
-- The start of main.c, up to the mount that the file system then serves.
use ical_fs.Base.{
  ◌≡◌, refl, ◌≤◌, Bytes, true, some, Option, List, ◌∷◌, length, Lacks, All, ok, Returns,
  Returns-and_then,
}
use ical_fs.HashMap.{HashMap, IsLawful, DistinctNames}
use ical_fs.Store.{Mount}
use ical_fs.Ical.{Ical}
use ical_fs.Agenda.Sync.{DirEntry, ics_names, load_root_node_tree}
use ical_fs.Agenda.Sync.Filtering.{IsIcsFile}
use ical_fs.Agenda.Sync.Marking.{KeepsParent}
use ical_fs.Agenda.Sync.Rooted.{Empty}
use ical_fs.Agenda.Sync.Mounting.{Mounted, load_root_node_tree-Mounted}
use ical_fs.Handlers.Start.{IsExtension, extension_of, Surroundings, serving, main, main-serves}

module _ ⦃I : Ical⦄ {M : HashMap} (L : IsLawful M) (K : KeepsParent) (s : Mount M)
    (w : Surroundings) (env p : Bytes) (ps : List Bytes) (ext : Option Bytes)
    (entries : List DirEntry) where
  -- Before any node is made, with a lawful table and files that can all be written, and given what
  -- KeepsParent relies on: for a vdir that is expanded to the path of a directory, of at most 255 bytes,
  -- and no extension, or one of at most 255 bytes that does not start with a dot, and whatever that
  -- directory has, where the regular files with ".ics" in their names have different names without a
  -- slash, the program serves. Each of those files that can be read as an entry, with the extension
  -- that was given, or else the one that there was, has a node then, whose parent is the root, if the
  -- file names no parent, the node of the file "<uid>.ics" of the parent that it names, if that has
  -- one, and no node otherwise, and nothing else is in the index.
  pub main-Mounted :
      w.wordexp env ≡ some (p ∷ ps)
      → w.is_directory p ≡ true
      → length p ≤ 255
      → IsExtension ext
      → w.readdir p ≡ some entries
      → Empty s
      → ((path : Bytes) → s.can_write path ≡ true)
      → All (Lacks b'/') (ics_names entries)
      → DistinctNames (ics_names entries)
      → Returns
          (λ o s'.
            (o ≡ serving)
            × Mounted
                (IsIcsFile entries)
                (record s { vdir = p; file_extension = extension_of ext s })
                s')
          (main w (record { ics_directory = some env; default_file_extension = ext }) s)
  main-Mounted words directory short given files none_live may slashless distinct =
      let s0 : Mount M = record s { vdir = p; file_extension = extension_of ext s } in
      rw (main-serves s w env p ps ext words directory short given, files)
        (Returns-and_then _ _ (load_root_node_tree (some entries) s0) (λ _. ok serving)
          (load_root_node_tree-Mounted L K s0 entries none_live may slashless distinct)
          λ _ s' m. (refl, m))
