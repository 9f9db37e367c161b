-- ===== src/Lookup.antt =====
-- The walk from the root along the names of a path: `get_node_by_path` and `get_node_by_uuid` of
-- fuse_node.c.
pub mod Chains
pub mod Stable
pub mod Gone
pub mod Namespace
pub mod Spec
pub mod Edits
pub mod Around
pub mod Relocating
use ical_fs.Base.{
  ℕ, Bytes, codes, str_eq, Bool, Option, none, some, List, [], ◌∷◌, ◌++◌, ltb, length,
  if◌then◌else◌, Cmd, out_of_bounds, pure, fail, ok, and_then, ◌>>=◌, ◌>>◌,
}
use ical_fs.Path.{split_path}
use ical_fs.Tree.{Ptr, load}
use ical_fs.HashMap.{HashMap}
use ical_fs.Store.{Mount, on_heap, get_node_filename, get_fuse_node_from_vdir_name}

-- The size of the array `segments` on the stack.
abbrev pub max_segments : ℕ
max_segments = 255

module _ {M : HashMap} where
  -- The inner loop: the first child with the name.
  pub find_child : Bytes → List Ptr → Cmd (Mount M) (Option Ptr)
  find_child segment [] = pure none
  find_child segment (child ∷ children) = do
    n ← on_heap (load child)
    let rest = find_child segment children
    if str_eq (get_node_filename n) segment then pure (some child) else rest

  pub walk : Ptr → List Bytes → Cmd (Mount M) (Option Ptr)
  walk current [] = pure (some current)
  walk current (segment ∷ segments) = do
    n ← on_heap (load current)
    next ← find_child segment n.children
    elim next [ none ↦ pure none | some child ↦ walk child segments ]

  unfoldable pub get_node_by_path : Bytes → Cmd (Mount M) (Option Ptr)
  unfolding walk find_child
  get_node_by_path path s =
      if str_eq path (codes "/")
      then ok (some s.fuse_root) s
      else if ltb max_segments (length (split_path path))
      then fail out_of_bounds s
      else walk s.fuse_root (split_path path) s

  unfoldable pub get_node_by_uuid : Bytes → Cmd (Mount M) (Option Ptr)
  get_node_by_uuid target_uuid = get_fuse_node_from_vdir_name (target_uuid ++ codes ".ics")
