-- ===== src/Path/Names.antt =====
-- Names, their extensions and their directories: the pieces that the functions of path.c take a
-- path apart into are the pieces that it is put together from.
use mathlib.Core.List.{append_assoc, append_cancel_left, append_cancel_right}
use ical_fs.Base.{
  ℕ, suc, ◌≡◌, refl, sym, ap, ◌∙◌, ◌≢◌, Bytes, Option, none, some, [], ◌∷◌, ◌++◌, arith, length,
  take, drop, take-length, drop-length, length-append, strrchr, strrchr-append, strrchr-Lacks,
  strrchr-LastAt, LastAt, absent, found, str_eq_ne, str_eq_refl, decimal, decimal-injective, Lacks,
}
use ical_fs.Path.{
  without_file_extension, get_file_extension, append_path, get_filename, get_parent_path,
  filename_numbered,
}

-- The string behind the byte that `strrchr` finds.
drop_past : (a t : Bytes) (b : ℕ) → drop (suc (length a)) (a ++ b ∷ t) ≡ t
drop_past [] t b = refl
drop_past (c ∷ a) t b = drop_past a t b

append-ne_self : (a t : Bytes) (c b : ℕ) → b ∷ t ≢ (c ∷ a) ++ b ∷ t
append-ne_self a t c b e = absurd (omega (arith, ap length e, length-append (c ∷ a) (b ∷ t)))

-- How a directory is written as the result of `get_parent_path`.
abbrev pub directory : Bytes → Bytes
directory [] = b'/' ∷ []
directory (c ∷ p) = c ∷ p

get_parent_path-append :
    (p name : Bytes) → Lacks b'/' name → get_parent_path (append_path p name) ≡ some (directory p)
unfolding get_parent_path append_path
get_parent_path-append [] name h =
    rw (strrchr-append [] name b'/' h, get_parent_path) (rw (str_eq_refl (b'/' ∷ name)))
get_parent_path-append (c ∷ p) name h =
    rw (strrchr-append (c ∷ p) name b'/' h, drop-length (c ∷ p) (b'/' ∷ name), get_parent_path)
      (rw (str_eq_ne (b'/' ∷ name) ((c ∷ p) ++ (b'/' ∷ name)) (append-ne_self p name c b'/'))
        (ap some (take-length (c ∷ p) (b'/' ∷ name))))

get_filename-append : (p name : Bytes) → Lacks b'/' name → get_filename (append_path p name) ≡ name
unfolding get_filename append_path
get_filename-append p name h =
    rw (strrchr-append p name b'/' h, get_filename) (drop_past p name b'/')

-- A name without a slash, appended to a directory, is the file name of the path, and the directory
-- is its parent; the empty directory, the root's, is given back as "/".
pub append_path_parts :
    (p name : Bytes)
    → Lacks b'/' name
    → (get_filename (append_path p name) ≡ name)
      × (get_parent_path (append_path p name) ≡ some (directory p))
append_path_parts p name h = (get_filename-append p name h, get_parent_path-append p name h)

-- A stem with an extension behind it, if there is one.
abbrev pub with_extension : Bytes → Option Bytes → Bytes
with_extension stem none = stem
with_extension stem (some e) = stem ++ (b'.' ∷ e)

recompose_at :
    (p : Bytes) {o : Option ℕ}
    → Lacks b'/' p
    → strrchr p b'.' ≡ o
    → LastAt b'.' p o
    → with_extension (without_file_extension p) (get_file_extension p) ≡ p
unfolding without_file_extension get_file_extension
recompose_at p h e (absent l) = rw (e, without_file_extension, get_file_extension)
recompose_at p h e (found a t eq l) =
    rw (e, strrchr-Lacks p b'/' h, without_file_extension, get_file_extension)
      (rw eq (rw (take-length a (b'.' ∷ t), drop_past a t b'.')))

-- A file name without a slash is its stem with its extension put back.
pub without_file_extension-get_file_extension :
    (p : Bytes)
    → Lacks b'/' p
    → with_extension (without_file_extension p) (get_file_extension p) ≡ p
without_file_extension-get_file_extension p h = recompose_at p h refl (strrchr-LastAt p b'.')

-- A stem and an extension, joined by a dot, are read back, if the extension has no dot and neither
-- has a slash; the stem may hold dots.
pub with_extension_parts :
    (stem e : Bytes)
    → Lacks b'.' e
    → Lacks b'/' (stem ++ (b'.' ∷ e))
    → (without_file_extension (with_extension stem (some e)) ≡ stem)
      × (get_file_extension (with_extension stem (some e)) ≡ some e)
unfolding without_file_extension get_file_extension
with_extension_parts stem e h s = (
  rw (strrchr-append stem e b'.' h, strrchr-Lacks _ b'/' s, without_file_extension)
      (take-length stem (b'.' ∷ e)),
  rw (strrchr-append stem e b'.' h, get_file_extension) (ap some (drop_past stem e b'.')),
)

numbered-injective_at :
    (p : Bytes) (n m : ℕ) {o : Option ℕ}
    → strrchr p b'.' ≡ o
    → filename_numbered p n ≡ filename_numbered p m
    → decimal n ≡ decimal m
unfolding filename_numbered
numbered-injective_at p n m {o = none} e h =
    ap (drop 1) (append_cancel_left p _ _ (rw (e, filename_numbered) at h))
numbered-injective_at p n m {o = some i} e h =
    append_cancel_right (decimal n) (decimal m) (drop i p)
      (ap (drop 1) (append_cancel_left (take i p) _ _ (rw (e, filename_numbered) at h)))

-- Different numbers make different names of one file name.
pub filename_numbered-injective :
    (p : Bytes) (n m : ℕ) → filename_numbered p n ≡ filename_numbered p m → n ≡ m
filename_numbered-injective p n m h = decimal-injective n m (numbered-injective_at p n m refl h)

get_file_extension-append :
    (a t : Bytes) → Lacks b'.' t → get_file_extension (a ++ (b'.' ∷ t)) ≡ some t
unfolding get_file_extension
get_file_extension-append a t h =
    rw (strrchr-append a t b'.' h, get_file_extension) (ap some (drop_past a t b'.'))

filename_numbered-append :
    (a t : Bytes) (n : ℕ)
    → Lacks b'.' t
    → filename_numbered (a ++ (b'.' ∷ t)) n ≡ (a ++ (b'.' ∷ decimal n)) ++ (b'.' ∷ t)
unfolding filename_numbered
filename_numbered-append a t n h =
    rw (strrchr-append a t b'.' h, filename_numbered)
      (rw (take-length a (b'.' ∷ t), drop-length a (b'.' ∷ t))
        (sym (append_assoc a (b'.' ∷ decimal n) (b'.' ∷ t))))

numbered_ext_at :
    (p : Bytes) (n : ℕ) {o : Option ℕ}
    → strrchr p b'.' ≡ o
    → LastAt b'.' p o
    → o ≢ none
    → get_file_extension (filename_numbered p n) ≡ get_file_extension p
numbered_ext_at p n q (absent l) h = absurd (h refl)
numbered_ext_at p n q (found a t eq l) h = rw eq (
    rw (filename_numbered-append a t n l) (
      get_file_extension-append (a ++ (b'.' ∷ decimal n)) t l
      ∙ sym (get_file_extension-append a t l)))

-- A numbered name keeps the extension of a name that has one.
pub get_file_extension-filename_numbered :
    (p : Bytes) (n : ℕ)
    → get_file_extension p ≢ none
    → get_file_extension (filename_numbered p n) ≡ get_file_extension p
unfolding get_file_extension
get_file_extension-filename_numbered p n h =
    numbered_ext_at p n refl (strrchr-LastAt p b'.') (λ e. h (rw (e, get_file_extension)))
