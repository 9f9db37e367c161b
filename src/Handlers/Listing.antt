-- ===== src/Handlers/Listing.antt =====
-- `fuse_listxattr` of main.c, with `icalcomponent_print_x_props` of ical_extra.c.
use ical_fs.Base.{
  ℕ, ◌+◌, ◌≤◌, ◌≡◌, ◌↔◌, ◌⊎◌, arith, Bytes, codes, starts_with_str, true, false, Option, none, some,
  List, [], ◌∷◌, ◌++◌, length, drop, ltb, if◌then◌else◌, Cmd, fault, assertion, null_pointer,
  out_of_bounds, pure, fail, ◌>>=◌, leb, ◌&&◌, take, length-append,
}
use ical_fs.Tree.{Ptr, load}
use ical_fs.HashMap.{HashMap}
use ical_fs.Store.{Mount, on_heap, is_root_node}
use ical_fs.Lookup.{get_node_by_path}
use ical_fs.Ical.{Ical, x}
use ical_fs.Ical.Properties.{is_kind, custom_property_prefix, custom_property_prefix_len}
use ical_fs.Entry.{get_icalcomponent_from_node}
use ical_fs.Entry.Fields.{get_dtstart, get_node_categories, get_node_class, get_node_status}
use ical_fs.Status.{Status, done, error, enonet, eperm}

-- A name and the terminator behind it.
abbrev name_entry : Bytes → Bytes
name_entry name = name ++ 0 ∷ []

-- The name, where the value is there and not empty.
abbrev listed_if : Bytes → Option Bytes → Bytes
listed_if name none = []
listed_if name (some []) = []
listed_if name (some (c ∷ value)) = name_entry name

abbrev listed_if_any : Bytes → Option Bytes → Bytes
listed_if_any name none = []
listed_if_any name (some value) = name_entry name

module _ ⦃I : Ical⦄ where
  -- `starts_with_str` is handed the name of each X- property, which must not be `NULL`.
  pub print_x_props : List I.Property → Option Bytes
  print_x_props [] = some []
  print_x_props (p ∷ ps) = elim (is_kind (I.kind p) x) [
    | false ↦ print_x_props ps
    | true ↦ elim (I.x_name p) [
      | none ↦ none
      | some name ↦ elim (print_x_props ps) [
        | none ↦ none
        | some rest ↦ some (
            if starts_with_str name custom_property_prefix
            then name_entry (codes "user." ++ drop custom_property_prefix_len name) ++ rest
            else rest)
      ]
    ]
  ]

  unfoldable pub icalcomponent_print_x_props : I.Component → Option Bytes
  unfolding print_x_props is_kind
  icalcomponent_print_x_props component = elim (I.inner component) [
    | some i ↦ print_x_props (I.properties i)
    | none ↦ print_x_props (I.properties component)
  ]

-- `memcpy` of n bytes into a buffer with room for so many: a fault where the bytes that are read or
-- those that are written are not all in their buffer.
unfoldable pub memcpy : {S : Type 0} → ℕ → Bytes → ℕ → Cmd S Bytes
memcpy room src n =
    if leb n (length src) && leb n room then pure (take n src) else fail out_of_bounds

-- The copy into the buffer of the caller, which has `size` bytes, of the list, which stands in memory
-- with a terminator behind it. The result has the bytes that were copied.
unfoldable pub copy_list : {S : Type 0} → Bytes → ℕ → Cmd S (Status × Bytes)
unfolding memcpy
copy_list names size = do
  list ←
      (if ltb 0 size
        then (if ltb size (length names)
            then memcpy size (names ++ 0 ∷ []) (length names)
            else memcpy size (names ++ 0 ∷ []) size)
        else pure [])
  pure (done (length names), list)

module _ ⦃I : Ical⦄ {M : HashMap} where
  list_names : Ptr → Cmd (Mount M) Bytes
  list_names node = do
    comp ← get_icalcomponent_from_node node
    elim comp [
      | none ↦ fail assertion
      | some c ↦ do
        cats ← get_node_categories node
        dtstart ← get_dtstart node
        iclass ← get_node_class node
        istatus ← get_node_status node
        elim (icalcomponent_print_x_props c) [
          | none ↦ fail null_pointer
          | some custom ↦ pure (
              listed_if (codes "user.categories") cats
              ++ (listed_if_any (codes "user.dtstart") dtstart
                  ++ (name_entry (codes "user.uid")
                      ++ (listed_if (codes "user.class") iclass
                          ++ (listed_if (codes "user.status") istatus ++ custom)))))
        ]
    ]

  unfoldable pub fuse_listxattr : Bytes → ℕ → Cmd (Mount M) (Status × Bytes)
  unfolding list_names copy_list
  fuse_listxattr path size = do
    found ← get_node_by_path path
    elim found [
      | none ↦ pure (error enonet, [])
      | some node ↦ do
        n ← on_heap (load node)
        if is_root_node n
            then pure (error eperm, [])
            else do names ← list_names node; copy_list names size
    ]

-- The copy goes out of bounds exactly if the caller gives a buffer, and that is shorter than the
-- list, or longer than the list with its terminator.
pub copy_list-in_bounds :
    {S : Type 0} (names : Bytes) (size : ℕ) (s : S)
    → (copy_list names size s ≡ fault out_of_bounds)
      ↔ ((1 ≤ size) × ((size + 1 ≤ length names) ⊎ (length names + 2 ≤ size)))
unfolding copy_list memcpy
copy_list-in_bounds names size s = let whole = length-append names (0 ∷ []) in ground (arith, whole)
