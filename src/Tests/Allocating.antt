-- ===== src/Tests/Allocating.antt =====
-- An array of eight elements of eight bytes.
use ical_fs.Base.{ℕ, Option, ◌<◌, ◌↔◌, ◌⊎◌, ◌≡◌, ◌*◌, none, some, ltb, if◌then◌else◌}
use ical_fs.Allocation.{
  size_max, exited, reallocarray, xreallocarray, reallocarray-exact, xreallocarray-exits,
}

reallocarray-exact_example :
    reallocarray some 8 8 ≡ (if ltb size_max (8 * 8) then none else some (8 * 8))
reallocarray-exact_example = reallocarray-exact some 8 8

-- An allocator with no memory left.
abbrev exhausted : ℕ → Option ℕ
exhausted size = none

xreallocarray-exits_example :
    (xreallocarray exhausted 8 8 ≡ exited)
    ↔ ((0 < 8) × (0 < 8) × ((size_max < 8 * 8) ⊎ (exhausted (8 * 8) ≡ none)))
xreallocarray-exits_example = xreallocarray-exits exhausted 8 8
