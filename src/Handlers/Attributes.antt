-- ===== src/Handlers/Attributes.antt =====
-- `fuse_getxattr`, `fuse_setxattr`, `fuse_removexattr` and `fuse_listxattr` of main.c. An attribute
-- is read as a status, which is the length of its value, and what `snprintf` puts into the buffer.
pub mod Custom
use ical_fs.Base.{
  ℕ, ◌-◌, ◌*◌, Bytes, codes, str_eq, starts_with_str, Option, none, some, [], ◌∷◌, length, take,
  drop, leb, if◌then◌else◌, Cmd, assertion, pure, fail, ◌>>=◌,
}
use ical_fs.Tree.{Ptr}
use ical_fs.HashMap.{HashMap}
use ical_fs.Store.{Mount}
use ical_fs.Lookup.{get_node_by_path}
use ical_fs.Ical.{Ical}
use ical_fs.Ical.Codes.{
  PropertyClass, public, private, confidential, x_class, no_class, parse_ical_class,
  parse_ical_status,
}
use ical_fs.Ical.Properties.{
  icalcomponent_set_custom_x_value, icalcomponent_get_custom_x_value,
  icalcomponent_remove_custom_prop,
}
use ical_fs.Entry.{get_icalcomponent_from_node, write_ical_file}
use ical_fs.Entry.Fields.{
  set_dtstart, get_dtstart, clear_dtstart, get_node_categories, set_node_categories, get_node_class,
  get_node_status, delete_node_class, set_node_class, set_node_status,
}
use ical_fs.Status.{Status, done, error, enonet, eperm, einval, emsgsize, enodata}

-- The attributes that the handlers tell apart by `strcmp`, and the key of any other "user." one.
pub data Attribute : Type 0 where
  categories class status dtstart uid sibling : Attribute
  custom : Bytes → Attribute
  foreign : Attribute

unfoldable pub attribute_of : Bytes → Attribute
attribute_of name =
    if str_eq name (codes "user.categories")
    then categories
    else if str_eq name (codes "user.class")
    then class
    else if str_eq name (codes "user.status")
    then status
    else if str_eq name (codes "user.dtstart")
    then dtstart
    else if str_eq name (codes "user.uid")
    then uid
    else if str_eq name (codes "user.sibling")
    then sibling
    else if starts_with_str name (codes "user.")
    then custom (drop 5 name)
    else foreign

-- `snprintf(buf, s, "%s", value)`: at most `s - 1` bytes and a terminator; nothing for no room.
abbrev pub printed : ℕ → Bytes → Bytes
printed s value = take (s - 1) value

-- A value that may be missing: `if (!c || *c == '\0')`.
abbrev pub shown : ℕ → Option Bytes → Status × Bytes
shown s none = (error enodata, [])
shown s (some []) = (error enodata, [])
shown s (some (c ∷ value)) = (done (length (c ∷ value)), printed s (c ∷ value))

-- A value that may be missing but not empty: `if (!value)`.
abbrev pub shown_any : ℕ → Option Bytes → Status × Bytes
shown_any s none = (error enodata, [])
shown_any s (some value) = (done (length value), printed s value)

-- Limits of xattr(7): 255 bytes for a name, and less than 64 kilobytes for a value.
abbrev pub max_name : ℕ
max_name = 256

abbrev pub max_value : ℕ
max_value = 64 * 1024

module _ ⦃I : Ical⦄ {M : HashMap} where
  -- libical has no inner component of one that is `NULL`, so there is no value.
  unfoldable get_custom : Ptr → Bytes → ℕ → Cmd (Mount M) (Status × Bytes)
  get_custom node key s = do
    ic ← get_icalcomponent_from_node node
    pure (shown_any s (elim ic [ none ↦ none | some c ↦ icalcomponent_get_custom_x_value c key ]))

  -- The change of an X- property asserts that there is a component to change.
  unfoldable change_custom : Ptr → (I.Component → I.Component) → Cmd (Mount M) Status
  change_custom node f = do
    ic ← get_icalcomponent_from_node node
    elim ic [ none ↦ fail assertion | some c ↦ write_ical_file node (f c) ]

  unfoldable get_attribute : Ptr → Attribute → ℕ → Cmd (Mount M) (Status × Bytes)
  get_attribute node categories s = do cats ← get_node_categories node; pure (shown s cats)
  get_attribute node uid s = do
    ic ← get_icalcomponent_from_node node
    let id : Option Bytes = elim ic [ none ↦ none | some c ↦ I.get_uid c ]
    elim id [ none ↦ fail assertion | some text ↦ pure (done (length text), printed s text) ]
  get_attribute node class s = do c ← get_node_class node; pure (shown s c)
  get_attribute node status s = do c ← get_node_status node; pure (shown s c)
  get_attribute node dtstart s = do time ← get_dtstart node; pure (shown_any s time)
  get_attribute node sibling s = get_custom node (codes "sibling") s
  get_attribute node (custom key) s = get_custom node key s
  get_attribute node foreign s = pure (error enodata, [])

  unfoldable pub fuse_getxattr : Bytes → Bytes → ℕ → Cmd (Mount M) (Status × Bytes)
  unfolding get_attribute get_custom
  fuse_getxattr path attribute s = do
    found ← get_node_by_path path
    elim found [
      | none ↦ pure (error enonet, [])
      | some node ↦ get_attribute node (attribute_of attribute) s
    ]

  set_class : Ptr → PropertyClass → Cmd (Mount M) Status
  set_class node no_class = pure (error einval)
  set_class node public = set_node_class node public
  set_class node private = set_node_class node private
  set_class node confidential = set_node_class node confidential
  set_class node x_class = set_node_class node x_class

  -- The value has `s` bytes, and as a C string it is `value`.
  unfoldable set_attribute : Ptr → Attribute → Bytes → ℕ → Cmd (Mount M) Status
  set_attribute node uid value s = pure (error eperm)
  set_attribute node sibling value s = pure (error eperm)
  set_attribute node dtstart value s =
      if str_eq value [] then clear_dtstart node else set_dtstart value node
  set_attribute node categories value s = set_node_categories node value s
  set_attribute node class value s = set_class node (parse_ical_class value)
  set_attribute node status value s = set_node_status node (parse_ical_status value)
  set_attribute node (custom key) value s =
      change_custom node (λ ic. icalcomponent_set_custom_x_value ic key value)
  set_attribute node foreign value s = pure (error einval)

  unfoldable pub fuse_setxattr : Bytes → Bytes → Bytes → ℕ → Cmd (Mount M) Status
  unfolding set_attribute set_class change_custom
  fuse_setxattr path attribute value s =
      if leb max_name (length attribute)
      then pure (error emsgsize)
      else if leb max_value (length value)
      then pure (error emsgsize)
      else do
        found ← get_node_by_path path
        elim found [
          | none ↦ pure (error enonet)
          | some node ↦ set_attribute node (attribute_of attribute) value s
        ]

  unfoldable remove_custom : Ptr → Bytes → Cmd (Mount M) Status
  remove_custom node key = change_custom node (λ ic. icalcomponent_remove_custom_prop ic key)

  unfoldable remove_attribute : Ptr → Attribute → Cmd (Mount M) Status
  unfolding remove_custom change_custom
  remove_attribute node categories = set_node_categories node [] 0
  remove_attribute node class = delete_node_class node
  remove_attribute node status = pure (error eperm)
  remove_attribute node dtstart = clear_dtstart node
  remove_attribute node uid = remove_custom node (codes "uid")
  remove_attribute node sibling = remove_custom node (codes "sibling")
  remove_attribute node (custom key) = remove_custom node key
  remove_attribute node foreign = pure (error einval)

  unfoldable pub fuse_removexattr : Bytes → Bytes → Cmd (Mount M) Status
  unfolding remove_attribute
  fuse_removexattr path attribute = do
    found ← get_node_by_path path
    elim found [
      | none ↦ pure (error enonet)
      | some node ↦ remove_attribute node (attribute_of attribute)
    ]
