-- ===== src/Arena/Calls.antt =====
-- The functions of arena.c that allocate: what they make is owned by the arena.
use ical_fs.Base.{
  ℕ, suc, ◌+◌, ◌≤◌, ◌≡◌, refl, inl, inr, Bytes, true, Option, none, some, List, ◌∷◌, arith, leb,
  length, take, ok, Returns, and_then, ◌>>=◌, ◌>>◌, Option-cases,
}
use ical_fs.Tree.{Ptr}
use ical_fs.Ical.{Ical}
use ical_fs.Handlers.Content.{rstrins}
use ical_fs.Arena.{
  ricalcomponent_new_clone, ricalcomponent_as_ical_string_r, FreeFunc, free_memory, free_parser,
  free_component, Object, raw, bytes, parser, component, Memory, put, allocate, arena_register,
  rmalloc, rstrndup, rstrdup, rstrins_in, rasprintf, ricalparser_new, ricalcomponent_empty,
  ricalcomponent_new_vcalendar, ricalcomponent_new_from_string,
}
use ical_fs.Arena.Owned.{Owned}
use ical_fs.Arena.Registered.{
  allocated, registered, arena_register-registered, registered_null, registered_new, Owned-put,
}

-- The arena owns what it has and perhaps more.
abbrev pub StillOwned : Memory → Ptr → {A : Type 0} → A → Memory → Type 0
StillOwned before ar _ m' = (bs : List (Ptr × Option Ptr)) × Owned before m' ar bs

module _ (before m : Memory) (ar : Ptr) (bs : List (Ptr × Option Ptr))
    (o : Owned before m ar bs) where
  register_new :
      (new : Object) (f : FreeFunc)
      → arena_register ar (some m.fresh) f (allocated new m)
        ≡ ok tt (registered ar (some m.fresh) f o.head (allocated new m))
  unfolding allocated put
  register_new new f =
      arena_register-registered ar (some m.fresh) f o.head (allocated new m)
        (ground (arith, o.here, o.below ar))

  rmalloc_runs :
      (size : ℕ)
      → rmalloc ar size m
        ≡ ok m.fresh (registered ar (some m.fresh) free_memory o.head (allocated (raw size) m))
  unfolding rmalloc allocate allocated
  rmalloc_runs size = rw (and_then, ◌>>=◌, ◌>>◌, register_new (raw size) free_memory) refl

  pub rmalloc-Owned : (size : ℕ) → Returns (StillOwned before ar) (rmalloc ar size m)
  rmalloc-Owned size =
      rw (rmalloc_runs size)
        ((suc m.fresh, some m.fresh) ∷ bs, registered_new before m ar bs o free_memory (raw size))

  -- A buffer that is allocated and then filled.
  filled :
      (size : ℕ) (t : Bytes)
      → Owned before
          (put m.fresh
            (some (bytes t))
            (registered ar (some m.fresh) free_memory o.head (allocated (raw size) m)))
          ar
          ((suc m.fresh, some m.fresh) ∷ bs)
  filled size t =
      Owned-put before _ ar (suc m.fresh) m.fresh bs (bytes t)
        (registered_new before m ar bs o free_memory (raw size))

  pub rstrndup-Owned :
      (src : Bytes) (len : ℕ)
      → len ≤ length src
      → Returns (StillOwned before ar) (rstrndup ar src len m)
  unfolding rstrndup
  rstrndup-Owned src len fits =
      let within : leb len (length src) ≡ true = ground arith in
      rw (and_then, ◌>>=◌, rmalloc_runs (len + 1), within)
        ((suc m.fresh, some m.fresh) ∷ bs, filled (len + 1) (take len src))

  pub rasprintf-Owned : (text : Option Bytes) → Returns (StillOwned before ar) (rasprintf ar text m)
  unfolding rasprintf
  rasprintf-Owned none = (bs, o)
  rasprintf-Owned (some t) =
      rw (and_then, ◌>>=◌, rmalloc_runs (length t + 1))
        ((suc m.fresh, some m.fresh) ∷ bs, filled (length t + 1) t)

  pub rstrdup-Owned : (str : Bytes) → Returns (StillOwned before ar) (rstrdup ar str m)
  unfolding rstrdup allocate allocated
  rstrdup-Owned str =
      rw (and_then, ◌>>=◌, ◌>>◌, register_new (bytes str) free_memory)
        ((suc m.fresh, some m.fresh) ∷ bs, registered_new before m ar bs o free_memory (bytes str))

  pub rstrins_in-Owned :
      (str : Bytes) (offset : ℕ) (buf : Bytes)
      → Returns (StillOwned before ar) (rstrins_in ar str offset buf m)
  unfolding rstrins_in allocate allocated
  rstrins_in-Owned str offset buf =
      let new = bytes (rstrins str offset buf) in
      rw (and_then, ◌>>=◌, ◌>>◌, register_new new free_memory)
        ((suc m.fresh, some m.fresh) ∷ bs, registered_new before m ar bs o free_memory new)

  pub ricalparser_new-Owned : Returns (StillOwned before ar) (ricalparser_new ar m)
  unfolding ricalparser_new allocate allocated
  ricalparser_new-Owned =
      rw (and_then, ◌>>=◌, ◌>>◌, register_new parser free_parser)
        ((suc m.fresh, some m.fresh) ∷ bs, registered_new before m ar bs o free_parser parser)

  pub ricalcomponent_new_vcalendar-Owned :
      Returns (StillOwned before ar) (ricalcomponent_new_vcalendar ar m)
  unfolding ricalcomponent_new_vcalendar allocate allocated
  ricalcomponent_new_vcalendar-Owned =
      rw (and_then, ◌>>=◌, ◌>>◌, register_new component free_component)
        ((suc m.fresh, some m.fresh) ∷ bs, registered_new before m ar bs o free_component component)

  null_registered :
      Owned before (registered ar none free_component o.head m) ar ((m.fresh, none) ∷ bs)
  null_registered = registered_null before m ar bs o free_component (λ e. cc)

  pub ricalcomponent_empty-Owned : Returns (StillOwned before ar) (ricalcomponent_empty ar m)
  unfolding ricalcomponent_empty
  ricalcomponent_empty-Owned =
      rw (and_then, ◌>>=◌, ◌>>◌, arena_register-registered ar none free_component o.head m o.here)
        ((m.fresh, none) ∷ bs, null_registered)

  pub ricalcomponent_new_from_string-Owned :
      ⦃I : Ical⦄ (text : Bytes)
      → Returns (StillOwned before ar) (ricalcomponent_new_from_string ar text m)
  unfolding ricalcomponent_new_from_string allocate allocated
  ricalcomponent_new_from_string-Owned ⦃I⦄ text = elim (Option-cases (I.from_string text)) [
    | inl nothing ↦
        rw
          (
            ricalcomponent_new_from_string,
            nothing,
            and_then,
            ◌>>=◌,
            ◌>>◌,
            arena_register-registered ar none free_component o.head m o.here,
          )
          ((m.fresh, none) ∷ bs, null_registered)
    | inr (c, read) ↦
        rw
          (
            ricalcomponent_new_from_string,
            read,
            and_then,
            ◌>>=◌,
            ◌>>◌,
            register_new component free_component,
          )
          (
            (suc m.fresh, some m.fresh) ∷ bs,
            registered_new before m ar bs o free_component component,
          )
  ]

  pub ricalcomponent_new_clone-Owned :
      (ic : Option Ptr) → Returns (StillOwned before ar) (ricalcomponent_new_clone ar ic m)
  unfolding ricalcomponent_new_clone allocate allocated
  ricalcomponent_new_clone-Owned none =
      rw (and_then, ◌>>=◌, ◌>>◌, arena_register-registered ar none free_component o.head m o.here)
        ((m.fresh, none) ∷ bs, null_registered)
  ricalcomponent_new_clone-Owned (some ic) =
      rw (and_then, ◌>>=◌, ◌>>◌, register_new component free_component)
        ((suc m.fresh, some m.fresh) ∷ bs, registered_new before m ar bs o free_component component)

  pub ricalcomponent_as_ical_string_r-Owned :
      ⦃I : Ical⦄ (ic : I.Component)
      → Returns (StillOwned before ar) (ricalcomponent_as_ical_string_r ar ic m)
  unfolding ricalcomponent_as_ical_string_r allocate allocated
  ricalcomponent_as_ical_string_r-Owned ⦃I⦄ ic =
      let new = bytes (I.as_ical_string ic) in
      rw (and_then, ◌>>=◌, ◌>>◌, register_new new free_memory)
        ((suc m.fresh, some m.fresh) ∷ bs, registered_new before m ar bs o free_memory new)
