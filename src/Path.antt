-- ===== src/Path.antt =====
-- path.c: file names and paths as strings of bytes. A function that returns a pointer into its
-- argument or into an arena copy of it returns the string that starts there, and `none` is `NULL`.
pub mod Names
pub mod Segments
use mathlib.Core.Option
use ical_fs.Base.{
  ℕ, suc, ◌<◌, Bytes, codes, Bool, true, false, ◌||◌, Option, none, some, List, [], ◌∷◌, ◌++◌, ltb,
  ◌==◌, if◌then◌else◌, take, drop, strrchr, str_eq, decimal,
}

-- The dot counts only behind the last slash.
ext_dot : Option ℕ → Option ℕ → Option ℕ
ext_dot none slash = none
ext_dot (some dot) none = some dot
ext_dot (some dot) (some slash) = if ltb slash dot then some dot else none

unfoldable pub without_file_extension : Bytes → Bytes
unfolding ext_dot
without_file_extension p = elim (ext_dot (strrchr p b'.') (strrchr p b'/')) [
  | some dot ↦ take dot p
  | none ↦ p
]

unfoldable pub get_file_extension : Bytes → Option Bytes
get_file_extension p = elim (strrchr p b'.') [ some dot ↦ some (drop (suc dot) p) | none ↦ none ]

unfoldable pub path_is_hidden : Bytes → Bool
path_is_hidden [] = false
path_is_hidden (c ∷ p) = c == b'.'

unfoldable pub append_path : Bytes → Bytes → Bytes
append_path parent child = parent ++ (b'/' ∷ child)

unfoldable pub get_filename : Bytes → Bytes
get_filename p = elim (strrchr p b'/') [ some slash ↦ drop (suc slash) p | none ↦ p ]

-- A last slash at the start, compared by `strcmp` with the whole, is the root's.
unfoldable pub get_parent_path : Bytes → Option Bytes
get_parent_path p = elim (strrchr p b'/') [
  | none ↦ none
  | some slash ↦ if str_eq (drop slash p) p then some (b'/' ∷ []) else some (take slash p)
]

-- `strtok_r` hands out no empty token.
flush : Bytes → List Bytes → List Bytes
flush [] segments = segments
flush (c ∷ segment) segments = (c ∷ segment) ∷ segments

-- The scan of `strtok_r` by "/": the token read so far, and the string ahead.
split_from : Bytes → Bytes → List Bytes
split_from segment [] = flush segment []
split_from segment (c ∷ p) = elim (c == b'/') [
  | true ↦ flush segment (split_from [] p)
  | false ↦ split_from (segment ++ c ∷ []) p
]

unfoldable pub split_path : Bytes → List Bytes
unfolding split_from flush
split_path p = split_from [] p

unfoldable pub filename_numbered : Bytes → ℕ → Bytes
filename_numbered filename n = elim (strrchr filename b'.') [
  | some ext ↦ take ext filename ++ (b'.' ∷ (decimal n ++ drop ext filename))
  | none ↦ filename ++ (b'.' ∷ decimal n)
]
