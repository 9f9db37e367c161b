-- ===== src/Handlers/Start.antt =====
-- The start of main.c, up to the handing over to FUSE, and the callbacks that do nothing.
pub mod Serving
pub mod Ending
use ical_fs.Base.{
  ℕ, zero, suc, ◌≤◌, ◌≡◌, refl, ap, Bytes, Bool, true, false, Option, none, some, List, [], ◌∷◌,
  arith, ltb, length, take, ◌==◌, if◌then◌else◌, Cmd, assertion, pure, fail, ok, and_then, ◌>>=◌,
  ◌>>◌,
}
use ical_fs.Tree.{free_tree}
use ical_fs.HashMap.{HashMap}
use ical_fs.Store.{Mount, on_heap, set_vdir, set_file_extension, buffer_size}
use ical_fs.Ical.{Ical}
use ical_fs.Agenda.Sync.{DirEntry, load_root_node_tree}
use ical_fs.Status.{Status, done, error, enoent}

-- The options that were given.
pub record AgendafsConfig : Type 0 where
  pub ics_directory : Option Bytes
  pub default_file_extension : Option Bytes

pub data Outcome : Type 0 where
  exited : ℕ → Outcome
  serving : Outcome

-- What the start meets of the system: the words that `wordexp` makes of a text, or none where it
-- fails; which paths are directories; and what `readdir` gives of one, or none where it cannot be opened.
pub record Surroundings : Type 0 where
  pub wordexp : Bytes → Option (List Bytes)
  pub is_directory : Bytes → Bool
  pub readdir : Bytes → Option (List DirEntry)

module _ {M : HashMap} where
  pub fuse_readlink : Bytes → Cmd (Mount M) Status
  fuse_readlink path = pure (error enoent)

  pub fuse_utimens : Bytes → Cmd (Mount M) Status
  fuse_utimens path = pure (done 0)

  -- The result 1 stands for the -1 of the code.
  unfoldable pub load_agendafs_environment : Surroundings → Bytes → Cmd (Mount M) ℕ
  load_agendafs_environment w vdir_env = elim (w.wordexp vdir_env) [
    | none ↦ pure 1
    | some words ↦ elim words [
      | [] ↦ pure 1
      | expanded_path ∷ rest ↦
          if w.is_directory expanded_path
          then (if ltb (length expanded_path) 256
              then (do set_vdir expanded_path; pure 0)
              else fail assertion)
          else pure 1
    ]
  ]

  unfoldable pub apply_extension : Option Bytes → Cmd (Mount M) ℕ
  apply_extension none = pure 0
  apply_extension (some extension) = set_file_extension extension

module _ ⦃I : Ical⦄ {M : HashMap} where
  unfoldable pub main : Surroundings → AgendafsConfig → Cmd (Mount M) Outcome
  main w conf = elim conf.ics_directory [
    | none ↦ pure (exited 1)
    | some ics_directory ↦ do
      res ← apply_extension conf.default_file_extension
      if res == 0
          then (do
            loaded ← load_agendafs_environment w ics_directory
            if loaded == 0
                then (do (λ s. load_root_node_tree (w.readdir s.vdir) s); pure serving)
                else pure (exited 1))
          else pure (exited 1)
  ]

module _ {M : HashMap} where
  -- The end, when FUSE has returned and the watcher is gone: `hashmap_free` and `free_tree`.
  unfoldable pub clean_up : Cmd (Mount M) (Unit {0})
  clean_up = do
    (λ s. ok tt (record s { entries_vdir = M.empty }))
    λ s. on_heap (free_tree (suc s.heap.next) s.fuse_root) s

take_all : (n : ℕ) (xs : Bytes) → length xs ≤ n → take n xs ≡ xs
take_all zero [] h = refl
take_all (suc n) [] h = refl
take_all zero (x ∷ xs) h = absurd (ground arith)
take_all (suc n) (x ∷ xs) h = ap (λ t. x ∷ t) (take_all n xs (ground arith))

-- No extension was given, or one that does not start with a dot and fits into the buffer.
abbrev pub IsExtension : Option Bytes → Type 0
IsExtension none = Unit
IsExtension (some []) = Unit
IsExtension (some (c ∷ e)) = ((c == b'.') ≡ false) × (length (c ∷ e) ≤ 255)

-- The extension that is used: the one given, or else the one that there was.
abbrev pub extension_of : {M : HashMap} → Option Bytes → Mount M → Bytes
extension_of none s = s.file_extension
extension_of (some e) s = e

module _ {M : HashMap} (s : Mount M) where
  apply_extension-kept :
      (ext : Option Bytes)
      → IsExtension ext
      → apply_extension ext s ≡ ok 0 (record s { file_extension = extension_of ext s })
  unfolding apply_extension set_file_extension
  apply_extension-kept none h = refl
  apply_extension-kept (some []) h = refl
  apply_extension-kept (some (c ∷ e)) (plain, short) =
      let within : ltb buffer_size (length (c ∷ e)) ≡ false = ground arith in
      rw (plain, within)
        (ap (λ x. ok 0 (record s { file_extension = x })) (take_all 255 (c ∷ e) short))

  load_agendafs_environment-kept :
      (w : Surroundings) (env p : Bytes) (ps : List Bytes)
      → w.wordexp env ≡ some (p ∷ ps)
      → w.is_directory p ≡ true
      → length p ≤ 255
      → load_agendafs_environment w env s ≡ ok 0 (record s { vdir = p })
  unfolding load_agendafs_environment set_vdir
  load_agendafs_environment-kept w env p ps words directory short =
      let within : ltb (length p) 256 ≡ true = ground arith in
      rw (load_agendafs_environment, words, directory, within, ◌>>◌, and_then, set_vdir)
        (ap (λ x. ok 0 (record s { vdir = x })) (take_all 255 p short))

module _ ⦃I : Ical⦄ {M : HashMap} (s : Mount M) (w : Surroundings) (env p : Bytes) (ps : List Bytes)
    (ext : Option Bytes) where
  -- Given a vdir that is expanded to the path of a directory, of at most 255 bytes, and no extension,
  -- or one of at most 255 bytes that does not start with a dot, the program takes both over whole,
  -- and serves when the entries of that directory have been loaded.
  pub main-serves :
      w.wordexp env ≡ some (p ∷ ps)
      → w.is_directory p ≡ true
      → length p ≤ 255
      → IsExtension ext
      → main w (record { ics_directory = some env; default_file_extension = ext }) s
        ≡ and_then
            (load_root_node_tree
              (w.readdir p)
              (record s { vdir = p; file_extension = extension_of ext s }))
            (λ _. ok serving)
  unfolding main
  main-serves words directory short given =
      rw
        (
          ◌>>=◌,
          ◌>>◌,
          and_then,
          apply_extension-kept s ext given,
          load_agendafs_environment-kept (record s { file_extension = extension_of ext s }) w env p
              ps words directory short,
        )
        refl
