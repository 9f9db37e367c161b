-- ===== src/Arena/Freed.antt =====
-- `free_all` gives back what the arena owns.
use ical_fs.Base.{
  ℕ, zero, suc, ◌≤◌, ◌≡◌, refl, ◌∙◌, true, Option, none, some, List, [], ◌∷◌, arith, ◌==◌, ==_refl,
  if◌then◌else◌, is_some, length, ok, Returns, Returns-mono, Returns-and_then, and_then, ◌>>=◌,
  ◌>>◌,
}
use ical_fs.Tree.{Ptr}
use ical_fs.Tree.Links.{has}
use ical_fs.Tree.Moves.{Distinct}
use ical_fs.Arena.{
  read_arena, FreeFunc, free_memory, free_parser, free_component, arena, block, Memory, put,
  release, load_block, head_of, call_free, free_blocks, free_all,
}
use ical_fs.Arena.Owned.{Releasable, Blocks, Blocks-same, addresses, Owned}

dropped : Option Ptr → Memory → Memory
dropped none m = m
dropped (some p) m = put p none m

release-put :
    (p : Ptr) (m : Memory) → is_some (m.object p) ≡ true → release p m ≡ ok tt (put p none m)
unfolding release
release-put p m there = ground arith

call_free-dropped :
    (f : FreeFunc) (q : Option Ptr) (m : Memory)
    → Releasable m f q
    → call_free f q m ≡ ok tt (dropped q m)
unfolding call_free dropped
call_free-dropped free_memory none m r = refl
call_free-dropped free_component none m r = refl
call_free-dropped free_parser none m r = absurd (r refl)
call_free-dropped free_memory (some p) m r = release-put p m r
call_free-dropped free_component (some p) m r = release-put p m r
call_free-dropped free_parser (some p) m r = release-put p m r

-- What a round leaves at an address.
dropped_at :
    (a : Ptr) (q : Option Ptr) (bs : List (Ptr × Option Ptr)) (m : Memory) (x : Ptr)
    → (if has x (addresses bs) then none else (put a none (dropped q m)).object x)
      ≡ (if has x (addresses ((a, q) ∷ bs)) then none else m.object x)
unfolding put dropped
dropped_at a none bs m x = ground arith
dropped_at a (some p) bs m x = ground arith

untouched :
    (a : Ptr) (q : Option Ptr) (bs : List (Ptr × Option Ptr)) (m : Memory)
    → Distinct (addresses ((a, q) ∷ bs))
    → (x : Ptr) → has x (addresses bs) ≡ true
    → (put a none (dropped q m)).object x ≡ m.object x
unfolding put dropped
untouched a none bs m d x i = ground arith
untouched a (some p) bs m d x i = ground arith

Distinct-rest :
    (a : Ptr) (q : Option Ptr) (bs : List (Ptr × Option Ptr))
    → Distinct (addresses ((a, q) ∷ bs))
    → Distinct (addresses bs)
Distinct-rest a none bs (out, d) = d
Distinct-rest a (some p) bs (out, d) = d.1

own_cell :
    (a : Ptr) (q : Option Ptr) (bs : List (Ptr × Option Ptr)) (m : Memory)
    → Distinct (addresses ((a, q) ∷ bs))
    → is_some (m.object a) ≡ true
    → is_some ((dropped q m).object a) ≡ true
unfolding put dropped
own_cell a none bs m d there = there
own_cell a (some p) bs m d there = ground arith

round :
    (k : ℕ) (a : Ptr) (q : Option Ptr) (f : FreeFunc) (next : Option Ptr)
    (bs : List (Ptr × Option Ptr)) (m : Memory)
    → m.object a ≡ some (block (record { ptr = q; free_func = f; next = next }))
    → Releasable m f q
    → Distinct (addresses ((a, q) ∷ bs))
    → free_blocks (suc k) (some a) m ≡ free_blocks k next (put a none (dropped q m))
unfolding free_blocks load_block
round k a q f next bs m here r d =
    rw
      (
        here,
        and_then,
        ◌>>=◌,
        ◌>>◌,
        call_free-dropped f q m r,
        release-put a (dropped q m) (own_cell a q bs m d (ground arith)),
      )
      refl

-- The loop frees each block and its pointer once, and nothing else.
pub free_blocks-frees :
    (k : ℕ) (head : Option Ptr) (bs : List (Ptr × Option Ptr)) (m : Memory)
    → length bs ≤ k
    → Blocks m head bs
    → Distinct (addresses bs)
    → Returns
        (λ _ m'. (x : Ptr) → m'.object x ≡ (if has x (addresses bs) then none else m.object x))
        (free_blocks (suc k) head m)
unfolding free_blocks
free_blocks-frees k head [] m le e d = rw e (λ x. refl)
free_blocks-frees zero head ((a, q) ∷ bs) m le b d = absurd (ground arith)
free_blocks-frees (suc k) head ((a, q) ∷ bs) m le (f, next, e, here, r, rest) d =
    rw (e, round (suc k) a q f next bs m here r d)
      (Returns-mono _ _ (free_blocks (suc k) next (put a none (dropped q m)))
        (free_blocks-frees k next bs (put a none (dropped q m)) (ground arith)
          (Blocks-same m (put a none (dropped q m)) next bs (untouched a q bs m d) rest)
          (Distinct-rest a q bs d))
        λ _ m' same x. same x ∙ dropped_at a q bs m x)

head_of-here :
    (m : Memory) (ar : Ptr) (head : Option Ptr)
    → m.object ar ≡ some (arena head)
    → head_of ar m ≡ ok head m
unfolding head_of read_arena
head_of-here m ar head here = rw (head_of, here) refl

-- The arena itself goes last.
close :
    (m : Memory) (ar : Ptr)
    → Returns
        (λ _ m'. (x : Ptr) → m'.object x ≡ (if x == ar then none else m.object x))
        (release ar (put ar (some (arena none)) m))
unfolding put
close m ar =
    rw (release-put ar (put ar (some (arena none)) m) (ground (arith, ==_refl ar)))
      (λ x. ground arith)

-- An arena that owns what was allocated gives all of it back, each piece once, without a fault, and
-- leaves the memory that there was before.
pub free_all-restores :
    (before m : Memory) (ar : Ptr) (bs : List (Ptr × Option Ptr))
    → Owned before m ar bs
    → Returns (λ _ m'. (x : Ptr) → m'.object x ≡ before.object x) (free_all (some ar) m)
unfolding free_all
free_all-restores before m ar bs o =
    rw (head_of-here m ar o.head o.here, and_then, ◌>>=◌, ◌>>◌)
      (Returns-and_then _ _ (free_blocks (suc m.fresh) o.head m) _
        (free_blocks-frees m.fresh o.head bs m o.count o.blocks o.distinct.1)
        λ _ m' same.
          Returns-mono _ _ (release ar (put ar (some (arena none)) m')) (close m' ar)
            λ _ m'' last x. ground (arith, last x, same x, o.outside x, o.new x))
