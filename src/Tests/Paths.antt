-- ===== src/Tests/Paths.antt =====
-- Names and paths.
use ical_fs.Base.{
  ◌≡◌, ◌≢◌, ◌↔◌, ◌⊎◌, codes, some, [], ◌∷◌, ◌≤◌, ◌+◌, length, fault, out_of_bounds, All, arith,
}
use ical_fs.Path.{split_path}
use ical_fs.Path.Segments.{IsName, joined, split_path-joined}
use ical_fs.Ical.Codes.{
  public, parse_ical_class, format_ical_class, parse_ical_class_iff, final, parse_ical_status,
  final, format_ical_status, format_ical_status-parse_ical_status,
}
use ical_fs.Handlers.Listing.{copy_list, copy_list-in_bounds}

two_names : All IsName (codes "a" ∷ codes "b.md" ∷ [])
two_names = (((λ e. cc), ground arith), (((λ e. cc), ground arith), tt))

split_path-joined_example :
    split_path (joined (codes "a" ∷ codes "b.md" ∷ [])) ≡ codes "a" ∷ codes "b.md" ∷ []
split_path-joined_example = split_path-joined (codes "a" ∷ codes "b.md" ∷ []) two_names

parse_ical_class_iff_example :
    (parse_ical_class (codes "public") ≡ public)
    ↔ (format_ical_class public ≡ some (codes "public"))
parse_ical_class_iff_example = parse_ical_class_iff (codes "public") public (λ e. cc)

format_ical_status-parse_ical_status_example :
    ((format_ical_status final ≡ some (codes "final")) ↔ (
      (parse_ical_status (codes "final") ≡ final)
      × ((codes "final" ≡ codes "draft") ⊎ (codes "final" ≡ codes "final"))))
    × ((format_ical_status (parse_ical_status (codes "x")) ≡ some (codes "x"))
        ⊎ ((format_ical_status (parse_ical_status (codes "x")) ≡ some (codes "final"))
            × (codes "x" ≢ codes "draft")))
format_ical_status-parse_ical_status_example =
    format_ical_status-parse_ical_status (codes "x") (codes "final") final

copy_list-in_bounds_example :
    (copy_list (codes "ab") 9 tt ≡ fault out_of_bounds)
    ↔ ((1 ≤ 9) × ((9 + 1 ≤ length (codes "ab")) ⊎ (length (codes "ab") + 2 ≤ 9)))
copy_list-in_bounds_example = copy_list-in_bounds (codes "ab") 9 tt
