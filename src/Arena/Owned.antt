-- ===== src/Arena/Owned.antt =====
-- The memory while a handler runs: what its arena owns, besides what there was before.
use ical_fs.Base.{
  suc, ◌≤◌, ◌≡◌, ap, ◌∙◌, ◌≢◌, true, false, Option, none, some, List, [], ◌∷◌, arith, is_some,
  length,
}
use ical_fs.Tree.{Ptr}
use ical_fs.Tree.Links.{has}
use ical_fs.Tree.Moves.{Distinct}
use ical_fs.Arena.{FreeFunc, free_parser, arena, block, Memory}

-- A pointer that the function can be called on.
abbrev pub Releasable : Memory → FreeFunc → Option Ptr → Type 0
Releasable m f none = f ≢ free_parser
Releasable m f (some p) = is_some (m.object p) ≡ true

-- The blocks from `head` on, each with its address and its pointer.
abbrev pub Blocks : Memory → Option Ptr → List (Ptr × Option Ptr) → Type 0
Blocks m head [] = head ≡ none
Blocks m head ((a, p) ∷ bs) =
    (f : FreeFunc) × (next : Option Ptr) × (head ≡ some a)
    × (m.object a ≡ some (block (record { ptr = p; free_func = f; next = next })))
    × Releasable m f p
    × Blocks m next bs

-- All addresses that the blocks stand for.
abbrev pub addresses : List (Ptr × Option Ptr) → List Ptr
addresses [] = []
addresses ((a, none) ∷ bs) = a ∷ addresses bs
addresses ((a, some p) ∷ bs) = p ∷ a ∷ addresses bs

-- Blocks stay where the memory stays.
pub Blocks-same :
    (m m' : Memory) (head : Option Ptr) (bs : List (Ptr × Option Ptr))
    → ((x : Ptr) → has x (addresses bs) ≡ true → m'.object x ≡ m.object x)
    → Blocks m head bs
    → Blocks m' head bs
Blocks-same m m' head [] same e = e
Blocks-same m m' head ((a, none) ∷ bs) same (f, next, e, here, r, rest) = (
  f,
  next,
  e,
  same a (ground arith) ∙ here,
  r,
  Blocks-same m m' next bs (λ x i. same x (ground arith)) rest,
)
Blocks-same m m' head ((a, some p) ∷ bs) same (f, next, e, here, r, rest) = (
  f,
  next,
  e,
  same a (ground arith) ∙ here,
  ap is_some (same p (ground arith)) ∙ r,
  Blocks-same m m' next bs (λ x i. same x (ground arith)) rest,
)

-- Nothing stands at the addresses that allocations will give.
abbrev pub Unused : Memory → Type 0
Unused m = (x : Ptr) → m.fresh ≤ x → m.object x ≡ none

-- The arena at `ar` owns its own memory, its blocks and what they point to, all apart, none of it
-- there in the memory `before`; all else is as it was then.
pub record Owned (before m : Memory) (ar : Ptr) (bs : List (Ptr × Option Ptr)) : Type 0 where
  pub head : Option Ptr
  pub here : m.object ar ≡ some (arena head)
  pub blocks : Blocks m head bs
  pub distinct : Distinct (ar ∷ addresses bs)
  pub outside : (x : Ptr) → has x (ar ∷ addresses bs) ≡ false → m.object x ≡ before.object x
  pub new : (x : Ptr) → has x (ar ∷ addresses bs) ≡ true → before.object x ≡ none
  pub below : (x : Ptr) → has x (ar ∷ addresses bs) ≡ true → suc x ≤ m.fresh
  pub unused : Unused m
  pub count : length bs ≤ m.fresh
