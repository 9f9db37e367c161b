-- ===== src/Tests/Sample.antt =====
-- A mounted tree of four nodes: the root 0 with the directory 1, "work", which has the entries 2,
-- "a.md", and 3, "b.md".
use ical_fs.Base.{
  Bytes, codes, true, Option, none, some, [], ◌∷◌, arith, ◌==◌, if◌then◌else◌, str_eq,
}
use ical_fs.Tree.{Ptr, Heap}
use ical_fs.Tree.Moves.{Linked}
use ical_fs.HashMap.{HashMap}
use ical_fs.Store.{AgendaEntry, Node, Mount}
use ical_fs.Store.Siblings.{IsTree}

abbrev pub entry_at : Bytes → Bytes → Option AgendaEntry
entry_at name file = some (record { filename = name; filename_vdir = file })

abbrev pub cell : Ptr → Option Node
cell p =
    if p == 0
    then some (record { content = none; parent = none; children = 1 ∷ []; child_capacity = 4 })
    else if p == 1
    then some (record {
      content = entry_at (codes "work") (codes "w.ics");
      parent = some 0;
      children = 2 ∷ 3 ∷ [];
      child_capacity = 4;
    })
    else if p == 2
    then some (record {
      content = entry_at (codes "a.md") (codes "a.ics");
      parent = some 1;
      children = [];
      child_capacity = 0;
    })
    else if p == 3
    then some (record {
      content = entry_at (codes "b.md") (codes "b.ics");
      parent = some 1;
      children = [];
      child_capacity = 0;
    })
    else if p == 4
    then some (record {
      content = entry_at (codes "a.md") (codes "c.ics");
      parent = none;
      children = [];
      child_capacity = 0;
    })
    else none

abbrev pub heap : Heap AgendaEntry
heap = record { cell = cell; next = 5 }

abbrev pub get : Bytes → Option Ptr
get k = if str_eq k (codes "a.ics") then some 2 else none

abbrev pub table : HashMap
table = record {
  Map = Bytes → Option Ptr;
  empty = λ k. none;
  get = λ m k. m k;
  insert = λ m k p. λ j. if str_eq k j then some p else m j;
  remove = λ m k. λ j. if str_eq k j then none else m j;
  get_keys = λ m. [];
}

abbrev pub mount : Mount table
mount = record {
  heap = heap;
  fuse_root = 0;
  entries_vdir = get;
  vdir = codes "/v";
  file_extension = codes "md";
  files = λ p. some (codes "text");
  can_write = λ p. true;
  can_remove = λ p. true;
  clock = 7;
  uuid = λ n. codes "u";
  uuid_count = 0;
}

pub heap-Linked : Linked heap
heap-Linked = record {
  links = λ p c. ground arith;
  distinct = λ p. ground arith;
  fits = λ p. ground arith;
  unused = λ p far. ground arith;
}

pub heap-IsTree : IsTree heap
unfolding str_eq
heap-IsTree = record { linked = heap-Linked; unique = λ p. ground arith }
