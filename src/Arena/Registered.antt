-- ===== src/Arena/Registered.antt =====
-- `arena_register`: a new block stands at the head of the arena's list.
use ical_fs.Base.{
  suc, ◌≤◌, ◌≡◌, refl, ◌≢◌, true, false, Option, none, some, List, [], ◌∷◌, arith, ==_refl, ok,
  Returns, and_then, ◌>>=◌,
}
use ical_fs.Tree.{Ptr}
use ical_fs.Tree.Links.{has}
use ical_fs.Arena.{
  read_arena, FreeFunc, free_parser, Object, arena, block, Memory, put, allocate, head_of,
  create_arena, arena_register,
}
use ical_fs.Arena.Owned.{Blocks-same, addresses, Unused, Owned}

-- The memory with one object more.
unfoldable pub allocated : Object → Memory → Memory
unfolding put
allocated o m = record (put m.fresh (some o) m) { fresh = suc m.fresh }

-- The memory with a block more at the head of the arena.
pub registered : Ptr → Option Ptr → FreeFunc → Option Ptr → Memory → Memory
unfolding put allocated
registered ar q f head m =
    put ar (some (arena (some m.fresh)))
      (allocated (block (record { ptr = q; free_func = f; next = head })) m)

pub arena_register-registered :
    (ar : Ptr) (q : Option Ptr) (f : FreeFunc) (head : Option Ptr) (m : Memory)
    → m.object ar ≡ some (arena head)
    → arena_register ar q f m ≡ ok tt (registered ar q f head m)
unfolding arena_register head_of read_arena allocate registered allocated
arena_register-registered ar q f head m here = rw (head_of, here, and_then, ◌>>=◌) refl

module _ (before m : Memory) (ar : Ptr) (bs : List (Ptr × Option Ptr))
    (o : Owned before m ar bs) where
  fresh_apart : (x : Ptr) → m.fresh ≤ x → has x (ar ∷ addresses bs) ≡ false
  fresh_apart x far = ground (arith, o.below x)

  -- A block for a `NULL`.
  pub registered_null :
      (f : FreeFunc)
      → f ≢ free_parser
      → Owned before (registered ar none f o.head m) ar ((m.fresh, none) ∷ bs)
  unfolding registered allocated put
  registered_null f ne =
      let apart = fresh_apart m.fresh (omega arith) in
      let m' = registered ar none f o.head m in
      let same : (x : Ptr) → has x (addresses bs) ≡ true → m'.object x ≡ m.object x =
        λ x i. ground (arith, o.distinct.0) in
      record {
        head = some m.fresh;
        here = ground (arith, ==_refl ar);
        blocks = (f, o.head, refl, ground arith, ne, Blocks-same m m' o.head bs same o.blocks);
        distinct = ground (arith, o.distinct);
        outside = λ x out. ground (arith, o.outside x);
        new = λ x i. ground (arith, o.new x, o.outside x, o.unused x);
        below = λ x i. ground (arith, o.below x);
        unused = λ x far. ground (arith, o.unused x, o.below x, o.below ar);
        count = ground (arith, o.count);
      }

  -- A block for an object that has just been allocated.
  pub registered_new :
      (f : FreeFunc) (new : Object)
      → Owned before
          (registered ar (some m.fresh) f o.head (allocated new m))
          ar
          ((suc m.fresh, some m.fresh) ∷ bs)
  unfolding registered allocated put
  registered_new f new =
      let apart = fresh_apart m.fresh (omega arith) in
      let apart' = fresh_apart (suc m.fresh) (omega arith) in
      let m' = registered ar (some m.fresh) f o.head (allocated new m) in
      let same : (x : Ptr) → has x (addresses bs) ≡ true → m'.object x ≡ m.object x =
        λ x i. ground (arith, o.distinct.0) in
      record {
        head = some (suc m.fresh);
        here = ground (arith, ==_refl ar);
        blocks =
            (f, o.head, refl, ground arith, ground arith, Blocks-same m m' o.head bs same o.blocks);
        distinct = ground (arith, o.distinct);
        outside = λ x out. ground (arith, o.outside x);
        new = λ x i. ground (arith, o.new x, o.outside x, o.unused x);
        below = λ x i. ground (arith, o.below x);
        unused = λ x far. ground (arith, o.unused x, o.below x, o.below ar);
        count = ground (arith, o.count);
      }

-- What the last block points to is written over.
pub Owned-put :
    (before m : Memory) (ar a p : Ptr) (bs : List (Ptr × Option Ptr)) (new : Object)
    → Owned before m ar ((a, some p) ∷ bs)
    → Owned before (put p (some new) m) ar ((a, some p) ∷ bs)
unfolding put
Owned-put before m ar a p bs new o =
    let m' = put p (some new) m in
    let (f, next, e, here, r, rest) = o.blocks in
    let same : (x : Ptr) → has x (addresses bs) ≡ true → m'.object x ≡ m.object x =
      λ x i. ground (arith, o.distinct) in
    record {
      head = o.head;
      here = ground (arith, o.here, o.distinct);
      blocks = (
        f,
        next,
        e,
        ground (arith, here, o.distinct),
        ground arith,
        Blocks-same m m' next bs same rest,
      );
      distinct = o.distinct;
      outside = λ x out. ground (arith, o.outside x);
      new = o.new;
      below = o.below;
      unused = λ x far. ground (arith, o.unused x, o.below x, o.below p);
      count = o.count;
    }

-- A new arena owns itself.
pub create_arena-Owned :
    (m : Memory) → Unused m → Returns (λ ar m'. Owned m m' ar []) (create_arena m)
unfolding create_arena allocate put
create_arena-Owned m u = record {
  head = none;
  here = ground arith;
  blocks = refl;
  distinct = (refl, tt);
  outside = λ x out. ground arith;
  new = λ x i. ground (arith, u x);
  below = λ x i. ground arith;
  unused = λ x far. ground (arith, u x);
  count = ground arith;
}
