-- ===== src/Path/Segments.antt =====
-- The segments of a path: what `split_path` gives never holds an empty name or a slash, and it
-- takes a path apart into the names that it was put together from.
use mathlib.Core.List.{append_assoc, append-nil}
use ical_fs.Base.{
  sym, ◌≡◌, refl, ap, ◌∙◌, ◌≢◌, inl, inr, Bytes, List, [], ◌∷◌, ◌++◌, arith, ◌==◌, ==_ne,
  Bool-cases, All, All-append, Lacks,
}
use ical_fs.Path.Names.{directory}
use ical_fs.Path.{flush, split_from, split_path, append_path}

-- A name that can stand between two slashes.
abbrev pub IsName : Bytes → Type 0
IsName s = (s ≢ []) × Lacks b'/' s

flush-IsName :
    (s : Bytes) (ss : List Bytes) → Lacks b'/' s → All IsName ss → All IsName (flush s ss)
unfolding flush
flush-IsName [] ss h k = k
flush-IsName (c ∷ s) ss h k = (((λ e. cc), h), k)

split_from-IsName : (s p : Bytes) → Lacks b'/' s → All IsName (split_from s p)
unfolding split_from
split_from-IsName s [] h = flush-IsName s [] h tt
split_from-IsName s (c ∷ p) h = elim (Bool-cases (c == b'/')) [
  | inl y ↦ rw (y, split_from, All) (flush-IsName s (split_from [] p) h (split_from-IsName [] p tt))
  | inr n ↦
      rw (n, split_from, All)
        (split_from-IsName (s ++ c ∷ []) p (All-append _ s (c ∷ []) h (ground arith, tt)))
]

-- Whatever the path, no segment is empty and none holds a slash.
pub split_path-IsName : (p : Bytes) → All IsName (split_path p)
unfolding split_path
split_path-IsName p = split_from-IsName [] p tt

-- A name ahead of the scan is read into the token.
split_from-name :
    (s name p : Bytes) → Lacks b'/' name → split_from s (name ++ p) ≡ split_from (s ++ name) p
unfolding split_from
split_from-name s [] p h = rw append-nil
split_from-name s (c ∷ name) p (ne, h) =
    rw (==_ne c b'/' ne, split_from)
      (split_from-name (s ++ c ∷ []) name p h
        ∙ ap (λ u. split_from u p) (append_assoc s (c ∷ []) name))

-- Names joined as the kernel passes a path: a slash before each.
abbrev pub joined : List Bytes → Bytes
joined [] = []
joined (s ∷ ss) = b'/' ∷ (s ++ joined ss)

flush-IsName_eq : (s : Bytes) (ss : List Bytes) → s ≢ [] → flush s ss ≡ s ∷ ss
unfolding flush
flush-IsName_eq [] ss h = absurd (h refl)
flush-IsName_eq (c ∷ s) ss h = refl

split_from-joined :
    (s : Bytes) (ss : List Bytes) → All IsName ss → split_from s (joined ss) ≡ flush s ss
unfolding split_from
split_from-joined s [] h = refl
split_from-joined s (n ∷ ss) ((ne, l), h) =
    ap (flush s)
      (split_from-name [] n (joined ss) l ∙ (split_from-joined n ss h ∙ flush-IsName_eq n ss ne))

-- A path that joins names, none of them empty or with a slash, is split into those names.
pub split_path-joined : (ss : List Bytes) → All IsName ss → split_path (joined ss) ≡ ss
unfolding split_path flush
split_path-joined ss h = split_from-joined [] ss h

flush-append : (s : Bytes) (ss ts : List Bytes) → flush s (ss ++ ts) ≡ flush s ss ++ ts
unfolding flush
flush-append [] ss ts = refl
flush-append (c ∷ s) ss ts = refl

-- A slash closes the token, whatever stands before it.
split_from-slash :
    (s p q : Bytes) → split_from s (p ++ (b'/' ∷ q)) ≡ split_from s p ++ split_from [] q
unfolding split_from
split_from-slash s [] q = flush-append s [] (split_from [] q)
split_from-slash s (c ∷ p) q = elim (Bool-cases (c == b'/')) [
  | inl y ↦
      rw (y, split_from)
        (ap (flush s) (split_from-slash [] p q) ∙ flush-append s (split_from [] p) _)
  | inr n ↦ rw (n, split_from) (split_from-slash (s ++ c ∷ []) p q)
]

-- The segments of a path below a directory are the directory's and then the rest's.
pub split_path-append_path :
    (p q : Bytes) → split_path (append_path p q) ≡ split_path p ++ split_path q
unfolding split_path append_path
split_path-append_path p q = split_from-slash [] p q

-- A name is its own only segment.
pub split_path-name : (name : Bytes) → IsName name → split_path name ≡ name ∷ []
unfolding append_path split_path
split_path-name name h = with_slash ∙ split_path-joined (name ∷ []) (h, tt)
  where
    with_slash : split_path name ≡ split_path (joined (name ∷ []))
    with_slash =
        sym (split_path-append_path [] name)
        ∙ ap (λ u. split_path (b'/' ∷ u)) (sym (append-nil name))

-- The directory that `get_parent_path` gives has the segments of the path that it was made from.
pub split_path-directory : (p : Bytes) → split_path (directory p) ≡ split_path p
unfolding split_path flush split_from
split_path-directory [] = refl
split_path-directory (c ∷ p) = refl

-- The segments of a name below a directory.
pub split_path_below :
    (p name : Bytes)
    → IsName name
    → split_path (append_path p name) ≡ split_path (directory p) ++ name ∷ []
split_path_below p name h =
    split_path-append_path p name ∙ rw (split_path-name name h, split_path-directory p) refl
