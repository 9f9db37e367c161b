-- ===== src/Arena/Sessions.antt =====
-- A handler's use of its arena: it is made, any number of calls of the functions that Request lists
-- allocate in it, and it is freed.
use ical_fs.Base.{
  ℕ, ◌≤◌, ◌≡◌, Bytes, Option, some, List, [], ◌∷◌, length, All, each, Cmd, pure, Returns,
  Returns-and_then, ◌>>=◌, ◌>>◌,
}
use ical_fs.Tree.{Ptr}
use ical_fs.Ical.{Ical}
use ical_fs.Arena.{
  ricalcomponent_new_clone, ricalcomponent_as_ical_string_r, Memory, create_arena, rmalloc,
  rstrndup, rstrdup, rstrins_in, rasprintf, ricalparser_new, ricalcomponent_empty,
  ricalcomponent_new_vcalendar, ricalcomponent_new_from_string, free_all,
}
use ical_fs.Arena.Owned.{Unused}
use ical_fs.Arena.Freed.{free_all-restores}
use ical_fs.Arena.Registered.{create_arena-Owned}
use ical_fs.Arena.Calls.{
  ricalcomponent_new_clone-Owned, ricalcomponent_as_ical_string_r-Owned, StillOwned, rmalloc-Owned,
  rstrndup-Owned, rasprintf-Owned, rstrdup-Owned, rstrins_in-Owned, ricalparser_new-Owned,
  ricalcomponent_new_vcalendar-Owned, ricalcomponent_empty-Owned,
  ricalcomponent_new_from_string-Owned,
}

-- A call of a function of arena.c with its arguments: all that allocate but
-- `ricalcomponent_as_ical_string`, whose text libical keeps, and the registering of a pointer.
pub data Request (C : Type 0) : Type 0 where
  call_rmalloc : ℕ → Request C
  call_rstrndup : Bytes → ℕ → Request C
  call_rstrdup : Bytes → Request C
  call_rstrins : Bytes → ℕ → Bytes → Request C
  call_rasprintf : Option Bytes → Request C
  call_parser call_empty call_vcalendar : Request C
  call_from_string : Bytes → Request C
  call_clone : Option Ptr → Request C
  call_string : C → Request C

-- No more of a string is copied than it has.
abbrev pub InBounds : {C : Type 0} → Request C → Type 0
InBounds (call_rstrndup src len) = len ≤ length src
InBounds _ = Unit

module _ ⦃I : Ical⦄ where
  abbrev pub serve : Ptr → Request I.Component → Cmd Memory (Unit {0})
  serve ar (call_rmalloc size) = rmalloc ar size >> pure tt
  serve ar (call_rstrndup src len) = rstrndup ar src len >> pure tt
  serve ar (call_rstrdup str) = rstrdup ar str >> pure tt
  serve ar (call_rstrins str offset buf) = rstrins_in ar str offset buf >> pure tt
  serve ar (call_rasprintf text) = rasprintf ar text >> pure tt
  serve ar call_parser = ricalparser_new ar >> pure tt
  serve ar call_empty = ricalcomponent_empty ar >> pure tt
  serve ar call_vcalendar = ricalcomponent_new_vcalendar ar >> pure tt
  serve ar (call_clone ic) = ricalcomponent_new_clone ar ic >> pure tt
  serve ar (call_string ic) = ricalcomponent_as_ical_string_r ar ic >> pure tt
  serve ar (call_from_string text) = ricalcomponent_new_from_string ar text >> pure tt

  -- `create_arena`, the calls in their order, and `free_all`.
  abbrev pub session : List (Request I.Component) → Cmd Memory (Unit {0})
  session requests = do ar ← create_arena; each (serve ar) requests; free_all (some ar)

done_with :
    {A : Type 0} (before : Memory) (ar : Ptr) (c : Cmd Memory A) (m : Memory)
    → Returns (StillOwned before ar) (c m)
    → Returns (StillOwned before ar) ((c >> pure tt) m)
done_with before ar c m owned =
    Returns-and_then (StillOwned before ar) (StillOwned before ar) (c m) (λ _. pure tt) owned
      (λ _ m' still. still)

module _ ⦃I : Ical⦄ (before : Memory) (ar : Ptr) where
  -- Whatever is called, the arena owns what it had and what the call allocated.
  served :
      (m : Memory) (r : Request I.Component)
      → InBounds r
      → StillOwned before ar tt m
      → Returns (StillOwned before ar) (serve ar r m)
  served m (call_rmalloc size) w (bs, o) =
      done_with before ar (rmalloc ar size) m (rmalloc-Owned before m ar bs o size)
  served m (call_rstrndup src len) w (bs, o) =
      done_with before ar (rstrndup ar src len) m (rstrndup-Owned before m ar bs o src len w)
  served m (call_rstrdup str) w (bs, o) =
      done_with before ar (rstrdup ar str) m (rstrdup-Owned before m ar bs o str)
  served m (call_rstrins str offset buf) w (bs, o) =
      done_with before ar (rstrins_in ar str offset buf) m
        (rstrins_in-Owned before m ar bs o str offset buf)
  served m (call_rasprintf text) w (bs, o) =
      done_with before ar (rasprintf ar text) m (rasprintf-Owned before m ar bs o text)
  served m call_parser w (bs, o) =
      done_with before ar (ricalparser_new ar) m (ricalparser_new-Owned before m ar bs o)
  served m call_empty w (bs, o) =
      done_with before ar (ricalcomponent_empty ar) m (ricalcomponent_empty-Owned before m ar bs o)
  served m call_vcalendar w (bs, o) =
      done_with before ar (ricalcomponent_new_vcalendar ar) m
        (ricalcomponent_new_vcalendar-Owned before m ar bs o)
  served m (call_clone ic) w (bs, o) =
      done_with before ar (ricalcomponent_new_clone ar ic) m
        (ricalcomponent_new_clone-Owned before m ar bs o ic)
  served m (call_string ic) w (bs, o) =
      done_with before ar (ricalcomponent_as_ical_string_r ar ic) m
        (ricalcomponent_as_ical_string_r-Owned before m ar bs o ic)
  served m (call_from_string text) w (bs, o) =
      done_with before ar (ricalcomponent_new_from_string ar text) m
        (ricalcomponent_new_from_string-Owned before m ar bs o text)

  each_served :
      (m : Memory) (rs : List (Request I.Component))
      → All InBounds rs
      → StillOwned before ar tt m
      → Returns (StillOwned before ar) (each (serve ar) rs m)
  each_served m [] w still = still
  each_served m (r ∷ rs) (w, ws) still =
      Returns-and_then (StillOwned before ar) (StillOwned before ar) (serve ar r m)
        (λ _. each (serve ar) rs) (served m r w still) (λ _ m' still'. each_served m' rs ws still')

-- Where nothing stands at the addresses that are still to be given, a handler may allocate in its
-- arena by any calls of rmalloc, rstrndup, rstrdup, rstrins, rasprintf, ricalparser_new,
-- ricalcomponent_empty, ricalcomponent_new_vcalendar, ricalcomponent_new_from_string,
-- ricalcomponent_new_clone and ricalcomponent_as_ical_string_r, none copying more of a string than it
-- has: freeing the arena has no fault, so that nothing is freed twice, and leaves what stood in memory
-- before.
pub session-restores :
    ⦃I : Ical⦄ (m : Memory) (requests : List (Request I.Component))
    → Unused m
    → All InBounds requests
    → Returns (λ _ m'. (x : Ptr) → m'.object x ≡ m.object x) (session requests m)
session-restores m requests u within =
    Returns-and_then _ _ (create_arena m) _ (create_arena-Owned m u) λ ar m1 o.
      Returns-and_then (StillOwned m ar) _ (each (serve ar) requests m1) _
        (each_served m ar m1 requests within ([], o))
        λ _ m2 (bs, o'). free_all-restores m m2 ar bs o'
