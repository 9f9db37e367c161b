-- ===== src/Arena.antt =====
-- arena.c: what a handler allocates is registered in its arena, a list of blocks, and `free_all` at
-- the end of the handler gives it all back. The memory is a map from addresses to objects, and a
-- pointer that may be `NULL` is an `Option`.
pub mod Owned
pub mod Freed
pub mod Registered
pub mod Calls
pub mod Sessions
use ical_fs.Base.{
  ℕ, zero, suc, ◌+◌, Bytes, Bool, true, false, Option, none, some, List, [], ◌∷◌, ◌++◌, leb, ◌==◌,
  if◌then◌else◌, length, take, Cmd, ok, fault, dangling, out_of_bounds, out_of_fuel, null_pointer,
  pure, fail, and_then, ◌>>=◌, ◌>>◌,
}
use ical_fs.Tree.{Ptr}
use ical_fs.Ical.{Ical}
use ical_fs.Handlers.Content.{rstrins}

-- The functions that are registered: `free`, `icalparser_free` and `ricalcomponent_free`.
pub data FreeFunc : Type 0 where
  free_memory free_parser free_component : FreeFunc

pub record MemoryBlock : Type 0 where
  pub ptr : Option Ptr
  pub free_func : FreeFunc
  pub next : Option Ptr

-- What stands at an address: an arena with its `head`, a block, memory that is not written yet, bytes
-- with their terminator, or an object of libical.
pub data Object : Type 0 where
  arena : Option Ptr → Object
  block : MemoryBlock → Object
  raw : ℕ → Object
  bytes : Bytes → Object
  parser component : Object

-- `fresh` is the address that the next allocation gives.
pub record Memory : Type 0 where
  pub object : Ptr → Option Object
  pub fresh : Ptr

unfoldable pub put : Ptr → Option Object → Memory → Memory
put p o m = record m { object = λ x. if x == p then o else m.object x }

unfoldable pub allocate : Object → Cmd Memory Ptr
allocate o m = ok m.fresh (record (put m.fresh (some o) m) { fresh = suc m.fresh })

-- `free` and the destructors of libical: the pointer must be one that has not been freed.
unfoldable pub release : Ptr → Cmd Memory (Unit {0})
release p m = elim (m.object p) [ some o ↦ ok tt (put p none m) | none ↦ fault dangling ]

read_arena : Option Object → Option (Option Ptr)
read_arena (some (arena head)) = some head
read_arena _ = none

read_block : Option Object → Option MemoryBlock
read_block (some (block b)) = some b
read_block _ = none

-- `region->head` and `*block`.
unfoldable pub head_of : Ptr → Cmd Memory (Option Ptr)
unfolding read_arena
head_of ar m = elim (read_arena (m.object ar)) [ some head ↦ ok head m | none ↦ fault dangling ]

unfoldable pub load_block : Ptr → Cmd Memory MemoryBlock
unfolding read_block
load_block p m = elim (read_block (m.object p)) [ some b ↦ ok b m | none ↦ fault dangling ]

unfoldable pub create_arena : Cmd Memory Ptr
unfolding allocate
create_arena = allocate (arena none)

unfoldable pub arena_register : Ptr → Option Ptr → FreeFunc → Cmd Memory (Unit {0})
unfolding allocate put head_of
arena_register ar p f = do
  head ← head_of ar
  b ← allocate (block (record { ptr = p; free_func = f; next = head }))
  λ m. ok tt (put ar (some (arena (some b))) m)

unfoldable pub rmalloc : Ptr → ℕ → Cmd Memory Ptr
unfolding allocate arena_register
rmalloc ar size = do p ← allocate (raw size); arena_register ar (some p) free_memory; pure p

-- `memcpy` reads no further than the terminator of the source.
unfoldable pub rstrndup : Ptr → Bytes → ℕ → Cmd Memory Ptr
unfolding rmalloc put
rstrndup ar src len = do
  buf ← rmalloc ar (len + 1)
  if leb len (length src)
      then (λ m. ok buf (put buf (some (bytes (take len src))) m))
      else fail out_of_bounds

unfoldable pub rstrdup : Ptr → Bytes → Cmd Memory Ptr
unfolding allocate arena_register
rstrdup ar str = do
  copy ← allocate (bytes str)
  arena_register ar (some copy) free_memory
  pure copy

-- What stands in the stream when it is closed.
unfoldable pub rstrins_in : Ptr → Bytes → ℕ → Bytes → Cmd Memory Ptr
unfolding allocate arena_register
rstrins_in ar str offset buf = do
  result ← allocate (bytes (rstrins str offset buf))
  arena_register ar (some result) free_memory
  pure result

-- The text that the format gives, or none where `vsnprintf` fails.
unfoldable pub rasprintf : Ptr → Option Bytes → Cmd Memory (Option Ptr)
unfolding rmalloc put
rasprintf ar none = pure none
rasprintf ar (some text) = do
  buffer ← rmalloc ar (length text + 1)
  λ m. ok (some buffer) (put buffer (some (bytes text)) m)

unfoldable pub ricalparser_new : Ptr → Cmd Memory Ptr
unfolding allocate arena_register
ricalparser_new ar = do p ← allocate parser; arena_register ar (some p) free_parser; pure p

unfoldable pub ricalcomponent_empty : Ptr → Cmd Memory (Option Ptr)
unfolding arena_register
ricalcomponent_empty ar = do arena_register ar none free_component; pure none

-- The clone of a `NULL` is a `NULL`.
unfoldable pub ricalcomponent_new_clone : Ptr → Option Ptr → Cmd Memory (Option Ptr)
unfolding allocate arena_register
ricalcomponent_new_clone ar none = do arena_register ar none free_component; pure none
ricalcomponent_new_clone ar (some ic) = do
  nic ← allocate component
  arena_register ar (some nic) free_component
  pure (some nic)

-- The text at `c` stands in a buffer that libical keeps, and is registered as if it were the
-- caller's. No part of the program calls this.
unfoldable pub ricalcomponent_as_ical_string : Ptr → Ptr → Cmd Memory Ptr
unfolding arena_register
ricalcomponent_as_ical_string ar c = do arena_register ar (some c) free_memory; pure c

-- The text that libical allocates for the component.
unfoldable pub ricalcomponent_as_ical_string_r : ⦃I : Ical⦄ → Ptr → I.Component → Cmd Memory Ptr
unfolding allocate arena_register
ricalcomponent_as_ical_string_r ⦃I⦄ ar ic = do
  c ← allocate (bytes (I.as_ical_string ic))
  arena_register ar (some c) free_memory
  pure c

unfoldable pub ricalcomponent_new_vcalendar : Ptr → Cmd Memory Ptr
unfolding allocate arena_register
ricalcomponent_new_vcalendar ar = do
  new_comp ← allocate component
  arena_register ar (some new_comp) free_component
  pure new_comp

unfoldable pub ricalcomponent_new_from_string : ⦃I : Ical⦄ → Ptr → Bytes → Cmd Memory (Option Ptr)
unfolding allocate arena_register
ricalcomponent_new_from_string ⦃I⦄ ar text = elim (I.from_string text) [
  | none ↦ do arena_register ar none free_component; pure none
  | some c ↦ do
    nic ← allocate component
    arena_register ar (some nic) free_component
    pure (some nic)
]

-- The registered function on the pointer: `free` and `ricalcomponent_free` pass over a `NULL`, and no
-- parser is `NULL`.
unfoldable pub call_free : FreeFunc → Option Ptr → Cmd Memory (Unit {0})
unfolding release
call_free free_memory none = pure tt
call_free free_component none = pure tt
call_free free_parser none = fail null_pointer
call_free f (some p) = release p

-- The loop of `free_all`.
unfoldable pub free_blocks : ℕ → Option Ptr → Cmd Memory (Unit {0})
unfolding load_block call_free release
free_blocks zero p = fail out_of_fuel
free_blocks (suc fuel) none = pure tt
free_blocks (suc fuel) (some p) = do
  b ← load_block p
  call_free b.free_func b.ptr
  release p
  free_blocks fuel b.next

-- Each round gives a block back, and there are no more of them than addresses.
unfoldable pub free_all : Option Ptr → Cmd Memory (Unit {0})
unfolding head_of free_blocks put release
free_all none = pure tt
free_all (some ar) = do
  head ← head_of ar
  (λ m. free_blocks (suc m.fresh) head m)
  (λ m. ok tt (put ar (some (arena none)) m))
  release ar
