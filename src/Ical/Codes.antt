-- ===== src/Ical/Codes.antt =====
-- The classes and states that ical_extra.c reads from attributes and shows in them.
use ical_fs.Base.{
  ◌≡◌, ◌≢◌, ◌↔◌, ◌⊎◌, Bytes, codes, str_eq, str_eq_iff, Option, none, some, arith, if◌then◌else◌,
}

-- ICAL_CLASS_*: `x_class` stands for ICAL_CLASS_X, and `no_class` for ICAL_CLASS_NONE.
pub data PropertyClass : Type 0 where
  public private confidential x_class no_class : PropertyClass

-- ICAL_STATUS_*: `other_status` stands for the states of events and tasks.
pub data PropertyStatus : Type 0 where
  draft final other_status no_status : PropertyStatus

unfoldable pub parse_ical_class : Bytes → PropertyClass
parse_ical_class input =
    if str_eq input (codes "private")
    then private
    else if str_eq input (codes "public")
    then public
    else if str_eq input (codes "confidential")
    then confidential
    else no_class

unfoldable pub parse_ical_status : Bytes → PropertyStatus
parse_ical_status input =
    if str_eq input (codes "draft")
    then draft
    else if str_eq input (codes "final")
    then final
    else final

unfoldable pub format_ical_class : PropertyClass → Option Bytes
format_ical_class private = some (codes "private")
format_ical_class public = some (codes "public")
format_ical_class confidential = some (codes "confidential")
format_ical_class _ = none

unfoldable pub format_ical_status : PropertyStatus → Option Bytes
format_ical_status draft = some (codes "draft")
format_ical_status final = some (codes "final")
format_ical_status _ = none

-- A text is accepted as a class, other than ICAL_CLASS_NONE, exactly if it is the text that is
-- shown for that class.
pub parse_ical_class_iff :
    (input : Bytes) (c : PropertyClass)
    → c ≢ no_class
    → (parse_ical_class input ≡ c) ↔ (format_ical_class c ≡ some input)
unfolding parse_ical_class format_ical_class
parse_ical_class_iff input c h = ground (
  arith,
  str_eq_iff input (codes "private"),
  str_eq_iff input (codes "public"),
  str_eq_iff input (codes "confidential"),
)

-- A status is shown as a text exactly if the text is `draft` or `final` and is read as that status.
-- What is read of any text is shown: as the text itself, or as `final`, if the text is not `draft`.
pub format_ical_status-parse_ical_status :
    (input shown : Bytes) (s : PropertyStatus)
    → ((format_ical_status s ≡ some shown)
        ↔ ((parse_ical_status shown ≡ s) × ((shown ≡ codes "draft") ⊎ (shown ≡ codes "final"))))
      × ((format_ical_status (parse_ical_status input) ≡ some input)
          ⊎ ((format_ical_status (parse_ical_status input) ≡ some (codes "final"))
              × (input ≢ codes "draft")))
unfolding parse_ical_status format_ical_status
format_ical_status-parse_ical_status input shown s = ground (
  arith,
  str_eq_iff input (codes "draft"),
  str_eq_iff input (codes "final"),
  str_eq_iff shown (codes "draft"),
  str_eq_iff shown (codes "final"),
)
