-- ===== src/Handlers/Content.antt =====
-- `fuse_read`, `fuse_write`, `fuse_getattr` and `fuse_open` of main.c, with `rstrins` of arena.c and
-- `get_node_stat` of fuse_node.c.
pub mod Reading
pub mod Writing
use ical_fs.Base.{
  ℕ, zero, suc, ◌+◌, ◌-◌, Bytes, codes, str_eq, Bool, true, false, Option, none, some, List, [],
  ◌∷◌, ◌++◌, length, take, drop, leb, ltb, ◌==◌, is_some, if◌then◌else◌, Cmd, assertion,
  out_of_fuel, pure, fail, ok, ◌>>=◌, ◌>>◌,
}
use ical_fs.Path.{path_is_hidden}
use ical_fs.Tree.{Ptr, load}
use ical_fs.HashMap.{HashMap}
use ical_fs.Store.{Mount, on_heap, is_root_node, get_vdir_filepath, get_node_filename}
use ical_fs.Lookup.{get_node_by_path}
use ical_fs.Ical.{Ical}
use ical_fs.Entry.{
  get_icalcomponent_from_node, write_ical_file, node_is_directory,
  icalcomponent_get_description_size,
}
use ical_fs.Status.{Status, done, error, enoent, enonet, eperm, eio}

-- What a buffer holds as a C string: the bytes before the first 0.
abbrev pub c_string : Bytes → Bytes
c_string [] = []
c_string (c ∷ s) = let rest = c_string s in if c == 0 then [] else c ∷ rest

-- The string that `rstrins` builds of `buf` of `size` bytes: a terminator follows the buffer, and
-- nothing of `str` does.
unfoldable pub rstrins : Bytes → ℕ → Bytes → Bytes
rstrins str offset buf =
    let previous_new_len = if leb offset (length str) then offset else length str in
    take previous_new_len str ++ buf

-- The bytes that `fuse_read` copies.
unfoldable pub read_bytes : Bytes → ℕ → ℕ → Bytes
read_bytes description size offset =
    if leb (length description) offset
    then []
    else let bytes_to_read = length description - offset in
      take (if ltb size bytes_to_read then size else bytes_to_read) (drop offset description)

-- The fields of `struct stat` that the program sets. The mode is the type bit and the permissions.
pub record Stat : Type 0 where
  pub is_dir : Bool
  pub is_reg : Bool
  pub permissions : ℕ
  pub nlink : ℕ
  pub size : ℕ

-- `struct stat st = {0}`
abbrev pub zero_stat : Stat
zero_stat = record { is_dir = false; is_reg = false; permissions = 0; nlink = 0; size = 0 }

abbrev pub directory_stat : ℕ → Stat
directory_stat size = record {
  is_dir = true;
  is_reg = false;
  permissions = 0o444;
  nlink = 2;
  size = size;
}

abbrev pub file_stat : ℕ → Stat
file_stat size = record {
  is_dir = false;
  is_reg = true;
  permissions = 0o774;
  nlink = 1;
  size = size;
}

module _ ⦃I : Ical⦄ where
  unfoldable pub icalcomponent_insert_description : I.Component → Bytes → ℕ → I.Component
  icalcomponent_insert_description ic buf offset =
      let old_desc : Bytes = elim (I.get_description ic) [ none ↦ [] | some d ↦ d ] in
      I.set_description ic (c_string (rstrins old_desc offset buf))

  -- libical gives no description of a component that is `NULL`.
  pub description_size : Option I.Component → ℕ
  description_size none = 0
  description_size (some c) = icalcomponent_get_description_size c

module _ ⦃I : Ical⦄ {M : HashMap} where
  sum_sizes : (Ptr → Cmd (Mount M) ℕ) → List Ptr → Cmd (Mount M) ℕ
  sum_sizes size_of [] = pure 0
  sum_sizes size_of (c ∷ cs) = do a ← size_of c; b ← sum_sizes size_of cs; pure (a + b)

  -- One unit of fuel for each level of the tree.
  pub calculate_node_size : ℕ → Ptr → Cmd (Mount M) ℕ
  calculate_node_size zero node = fail out_of_fuel
  calculate_node_size (suc fuel) node = do
    node_component ← get_icalcomponent_from_node node
    n ← on_heap (load node)
    elim (node_is_directory n node_component) [
      | false ↦ pure (description_size node_component)
      | true ↦ sum_sizes (calculate_node_size fuel) n.children
    ]

  -- `assert(stat(vdir_path, &vdir_stat) == 0)`
  unfoldable pub get_node_stat : Ptr → Option I.Component → Cmd (Mount M) Stat
  unfolding calculate_node_size sum_sizes description_size
  get_node_stat node node_component = do
    n ← on_heap (load node)
    elim (is_root_node n) [
      | true ↦ pure zero_stat
      | false ↦ do
        vdir_path ← get_vdir_filepath node
        (λ s. if is_some (s.files vdir_path) then ok tt s else fail assertion s)
        elim (node_is_directory n node_component) [
          | true ↦ do
            size ← (λ s. calculate_node_size (suc s.heap.next) node s)
            pure (directory_stat size)
          | false ↦ pure (file_stat (description_size node_component))
        ]
    ]

  unfoldable pub fuse_getattr : Bytes → Cmd (Mount M) (Status × Stat)
  fuse_getattr path = if str_eq path (codes "/") then pure (done 0, directory_stat 0) else do
    found ← get_node_by_path path
    elim found [
      | none ↦ pure (error enoent, zero_stat)
      | some node ↦ do
        ic ← get_icalcomponent_from_node node
        st ← get_node_stat node ic
        pure (done 0, st)
    ]

  unfoldable pub fuse_open : Bytes → Cmd (Mount M) Status
  fuse_open path = do
    found ← get_node_by_path path
    pure (elim found [ none ↦ error enoent | some node ↦ done 0 ])

  -- The stat of each child is taken of `node`, with the child's component.
  list_children : Ptr → List Ptr → Cmd (Mount M) (List (Bytes × Stat))
  list_children node [] = pure []
  list_children node (child ∷ children) = do
    ic ← get_icalcomponent_from_node child
    elim ic [
      | none ↦ fail assertion
      | some component ↦ do
        st ← get_node_stat node (some component)
        c ← on_heap (load child)
        rest ← list_children node children
        pure ((get_node_filename c, st) ∷ rest)
    ]

  -- What `filler` is handed behind "." and "..", where its buffer holds it all.
  unfoldable pub fuse_readdir : Bytes → Cmd (Mount M) (Status × List (Bytes × Stat))
  unfolding list_children
  fuse_readdir path = do
    found ← get_node_by_path path
    elim found [
      | none ↦ pure (error enoent, [])
      | some node ↦ do
        n ← on_heap (load node)
        entries ← list_children node n.children
        pure (done 0, entries)
    ]

  -- The status and the bytes copied to the buffer.
  unfoldable pub fuse_read : Bytes → ℕ → ℕ → Cmd (Mount M) (Status × Bytes)
  fuse_read path size offset = do
    found ← get_node_by_path path
    elim found [
      | none ↦ pure (error enoent, [])
      | some node ↦ do
        component ← get_icalcomponent_from_node node
        elim component [
          | none ↦ pure (error eio, [])
          | some ic ↦ pure (elim (I.get_description ic) [
            | none ↦ (done 0, [])
            | some text ↦ (done (length (read_bytes text size offset)), read_bytes text size offset)
          ])
        ]
    ]

  -- `buf` has the `size` bytes of the call. The test `write_ical_file(...) >= 0` is on a `size_t`, so
  -- it holds whatever the write returned.
  unfoldable pub fuse_write : Bytes → Bytes → ℕ → Cmd (Mount M) Status
  fuse_write path buf offset = if path_is_hidden path then pure (error eperm) else do
    found ← get_node_by_path path
    elim found [
      | none ↦ pure (error enonet)
      | some node ↦ do
        component ← get_icalcomponent_from_node node
        elim component [
          | none ↦ fail assertion
          | some ic ↦ do
            write_ical_file node (icalcomponent_insert_description ic buf offset)
            pure (done (length buf))
        ]
    ]
