-- ===== src/Tests/Memory.antt =====
-- The arena of a handler, from an empty memory.
use ical_fs.Base.{◌≡◌, refl, codes, none, List, [], ◌∷◌, arith, Returns}
use ical_fs.Tree.{Ptr}
use ical_fs.Arena.{Memory}
use ical_fs.Arena.Owned.{Unused}
use ical_fs.Arena.Sessions.{
  Request, call_rmalloc, call_rstrndup, call_empty, call_from_string, call_parser, session,
  session-restores,
}
use ical_fs.Tests.Calendar.{library, Comp}

abbrev two_cells : Memory
two_cells = record { object = λ x. none; fresh = 2 }

abbrev requests : List (Request Comp)
requests =
    call_rstrndup (codes "abc") 2
    ∷ call_empty
    ∷ call_parser
    ∷ call_from_string (codes "text")
    ∷ call_rmalloc 4
    ∷ []

two_cells-Unused : Unused two_cells
two_cells-Unused x far = refl

session-restores_example :
    Returns
      (λ _ m'. (x : Ptr) → m'.object x ≡ two_cells.object x)
      (session ⦃I = library⦄ requests two_cells)
session-restores_example =
    session-restores ⦃I = library⦄ two_cells requests two_cells-Unused
      (ground arith, (tt, (tt, (tt, (tt, tt)))))
