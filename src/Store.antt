-- ===== src/Store.antt =====
-- fuse_node_store.c, with agenda_entry.c: the globals of the program, and the nodes of the mounted
-- tree, each with its entry. `Mount` holds what the C code keeps in `fuse_root`, `entries_vdir`,
-- `VDIR` and `FILE_EXTENSION`, the heap of tree nodes, and what it meets of the system: the files of
-- the vdir by their paths, whether a file can be opened for writing and can be removed, the time in
-- seconds, and the texts that the calls of `uuid_generate` and `uuid_unparse` give one after another.
pub mod Names
pub mod Siblings
pub mod Children
pub mod Relocation
pub mod Acyclic
pub mod Deletion
pub mod Extension
pub mod Creation
pub mod Index
use ical_fs.Base.{
  ℕ, zero, suc, ◌+◌, ◌-◌, Bytes, str_eq, Bool, true, false, not, Option, none, some, List, [], ◌∷◌,
  ltb, leb, length, take, if◌then◌else◌, is_some, Cmd, Run, ok, fault, null_pointer, out_of_fuel,
  pure, fail, and_then, ◌>>=◌, ◌>>◌, ◌==◌, codes,
}
use ical_fs.Path.{append_path, filename_numbered}
use ical_fs.Tree.{
  Ptr, TreeNode, Heap, load, store, create_tree_node, add_child, detach_tree_node, free_tree,
}
use ical_fs.HashMap.{HashMap}

-- A `NULL` file name cannot occur: `create_agenda_entry` and `copy_agenda_entry` duplicate both.
pub record AgendaEntry : Type 0 where
  pub filename : Bytes
  pub filename_vdir : Bytes

abbrev pub Node : Type 0
Node = TreeNode AgendaEntry

pub record Mount (M : HashMap) : Type 0 where
  pub heap : Heap AgendaEntry
  pub fuse_root : Ptr
  pub entries_vdir : M.Map
  pub vdir : Bytes
  pub file_extension : Bytes
  pub files : Bytes → Option Bytes
  pub can_write : Bytes → Bool
  pub can_remove : Bytes → Bool
  pub clock : ℕ
  pub uuid : ℕ → Bytes
  pub uuid_count : ℕ

-- `strlcpy` into a buffer of 256 bytes keeps 255.
abbrev pub buffer_size : ℕ
buffer_size = 256

unfoldable pub is_root_node : Node → Bool
is_root_node n = not (is_some n.content)

unfoldable pub get_node_filename : Node → Bytes
get_node_filename n = elim n.content [ none ↦ [] | some e ↦ e.filename ]

module _ {M : HashMap} where
  -- A command on the heap of nodes.
  abbrev pub on_heap : {A : Type 0} → Cmd (Heap AgendaEntry) A → Cmd (Mount M) A
  on_heap m s = elim (m s.heap) [ ok a h ↦ ok a (record s { heap = h }) | fault e ↦ fault e ]

  unfoldable pub set_vdir : Bytes → Cmd (Mount M) (Unit {0})
  set_vdir expanded_path s = ok tt (record s { vdir = take (buffer_size - 1) expanded_path })

  -- The result 1 stands for the -1 of the code, and 2 for its -2.
  unfoldable pub set_file_extension : Bytes → Cmd (Mount M) ℕ
  set_file_extension [] s = ok 0 (record s { file_extension = [] })
  set_file_extension (c ∷ extension) s =
      if c == b'.'
      then ok 1 s
      else if ltb buffer_size (length (c ∷ extension))
      then ok 2 s
      else ok 0 (record s { file_extension = take (buffer_size - 1) (c ∷ extension) })

  -- `node->data`, which the callers dereference.
  unfoldable pub get_entry : Ptr → Cmd (Mount M) AgendaEntry
  get_entry node = do
    n ← on_heap (load node)
    elim n.content [ some e ↦ pure e | none ↦ fail null_pointer ]

  unfoldable pub set_node_filename : Ptr → Bytes → Cmd (Mount M) ℕ
  set_node_filename node filename = do
    e ← get_entry node
    n ← on_heap (load node)
    on_heap (store node (record n { content = some (record e { filename = filename }) }))
    pure 0

  unfoldable pub get_fuse_node_from_vdir_name : Bytes → Cmd (Mount M) (Option Ptr)
  get_fuse_node_from_vdir_name vdir_name s = ok (M.get s.entries_vdir vdir_name) s

  unfoldable pub get_vdir_filepath : Ptr → Cmd (Mount M) Bytes
  get_vdir_filepath node = do e ← get_entry node; λ s. ok (append_path s.vdir e.filename_vdir) s

  -- No path down the tree is longer than the number of nodes ever made.
  unfoldable pub delete_fuse_node : Ptr → Cmd (Mount M) (Unit {0})
  delete_fuse_node node = do
    e ← get_entry node
    (λ s. ok tt (record s { entries_vdir = M.remove s.entries_vdir e.filename_vdir }))
    on_heap (detach_tree_node node)
    λ s. on_heap (free_tree (suc s.heap.next) node) s

  unfoldable pub create_fuse_node : AgendaEntry → Cmd (Mount M) Ptr
  create_fuse_node entry = do
    node ← on_heap (create_tree_node (some entry))
    (λ s. ok tt (record s { entries_vdir = M.insert s.entries_vdir entry.filename_vdir node }))
    pure node

  unfoldable pub upsert_fuse_node : AgendaEntry → Cmd (Mount M) Ptr
  upsert_fuse_node entry = do
    found ← get_fuse_node_from_vdir_name entry.filename_vdir
    elim found [
      | some node ↦ do set_node_filename node entry.filename; pure node
      | none ↦ create_fuse_node entry
    ]

  -- The inner loop: no child has the name.
  pub is_unique : Bytes → List Ptr → Cmd (Mount M) Bool
  is_unique new_filename [] = pure true
  is_unique new_filename (child ∷ children) = do
    n ← on_heap (load child)
    let rest = is_unique new_filename children
    if str_eq new_filename (get_node_filename n) then pure false else rest

  -- The outer loop: the name, then its numbered forms, until one is unique.
  pub pick_filename : ℕ → Bytes → Bytes → ℕ → List Ptr → Cmd (Mount M) Bytes
  pick_filename zero filename new_filename conflict_count children = fail out_of_fuel
  pick_filename (suc fuel) filename new_filename conflict_count children = do
    unique ← is_unique new_filename children
    let next = filename_numbered filename conflict_count
    let rest = pick_filename fuel filename next (suc conflict_count) children
    if unique then pure new_filename else rest

  -- Each name that is taken costs a round, and the names are fewer than the rounds given.
  unfoldable pub add_fuse_child : Ptr → Ptr → Cmd (Mount M) ℕ
  unfolding pick_filename is_unique
  add_fuse_child parent child = do
    c ← on_heap (load child)
    p ← on_heap (load parent)
    let filename = get_node_filename c
    new_filename ← pick_filename (suc (suc (length p.children))) filename filename 1 p.children
    set_node_filename child new_filename
    on_heap (add_child parent child)

  unfoldable pub move_fuse_node : Ptr → Ptr → Cmd (Mount M) ℕ
  move_fuse_node new_parent child = do
    on_heap (detach_tree_node child)
    add_fuse_child new_parent child
