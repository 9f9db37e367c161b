-- ===== src/Tests/Table.antt =====
-- A table as a list of keys with their pointers, which meets the laws of the interface, and the
-- index of a small tree in it.
use ical_fs.Base.{
  ◌≡◌, refl, inl, inr, Bytes, codes, str_eq, str_eq_iff, str_eq_refl, true, false, Option, none,
  some, List, [], ◌∷◌, arith, ◌==◌, Bool-cases, if◌then◌else◌, is_some, Returns,
}
use ical_fs.Tree.{Ptr, Heap}
use ical_fs.Tree.Links.{content_of}
use ical_fs.HashMap.{HashMap, IsLawful, listed, DistinctNames}
use ical_fs.Store.{AgendaEntry, Node, Mount, create_fuse_node, delete_fuse_node}
use ical_fs.Store.Siblings.{IsTree}
use ical_fs.Store.Index.{IsIndexed, create_fuse_node-IsIndexed, delete_fuse_node-IsIndexed}

abbrev Pairs : Type 0
Pairs = List (Bytes × Ptr)

abbrev lookup : Pairs → Bytes → Option Ptr
lookup [] j = none
lookup ((k, p) ∷ m) j = if str_eq k j then some p else lookup m j

abbrev remove : Pairs → Bytes → Pairs
remove [] k = []
remove ((i, p) ∷ m) k = let rest = remove m k in if str_eq k i then rest else (i, p) ∷ rest

abbrev drop_key : Bytes → List Bytes → List Bytes
drop_key k [] = []
drop_key k (i ∷ ks) = let rest = drop_key k ks in if str_eq k i then rest else i ∷ rest

abbrev keys : Pairs → List Bytes
keys [] = []
keys ((k, p) ∷ m) = k ∷ drop_key k (keys m)

abbrev pub pairs : HashMap
pairs = record {
  Map = Pairs;
  empty = [];
  get = lookup;
  insert = λ m k p. (k, p) ∷ remove m k;
  remove = remove;
  get_keys = keys;
}

lookup-remove :
    (m : Pairs) (k j : Bytes) → lookup (remove m k) j ≡ (if str_eq k j then none else lookup m j)
lookup-remove [] k j = ground arith
lookup-remove ((i, p) ∷ m) k j =
    ground (arith, lookup-remove m k j, str_eq_iff k i, str_eq_iff k j, str_eq_iff i j)

listed-drop_key :
    (k j : Bytes) (ks : List Bytes)
    → listed j (drop_key k ks) ≡ (if str_eq k j then false else listed j ks)
listed-drop_key k j [] = ground arith
listed-drop_key k j (i ∷ ks) =
    ground (arith, listed-drop_key k j ks, str_eq_iff k i, str_eq_iff k j, str_eq_iff j i)

listed-keys : (m : Pairs) (j : Bytes) → listed j (keys m) ≡ is_some (lookup m j)
listed-keys [] j = refl
listed-keys ((k, p) ∷ m) j =
    ground (arith, listed-keys m j, listed-drop_key k j (keys m), str_eq_iff k j, str_eq_iff j k)

drop_key-DistinctNames :
    (k : Bytes) (ks : List Bytes) → DistinctNames ks → DistinctNames (drop_key k ks)
drop_key-DistinctNames k [] d = tt
drop_key-DistinctNames k (i ∷ ks) (out, d) =
    ground (arith, drop_key-DistinctNames k ks d, listed-drop_key k i ks)

keys-DistinctNames : (m : Pairs) → DistinctNames (keys m)
keys-DistinctNames [] = tt
keys-DistinctNames ((k, p) ∷ m) = (
  ground (arith, listed-drop_key k k (keys m), str_eq_iff k k),
  drop_key-DistinctNames k (keys m) (keys-DistinctNames m),
)

pub pairs-IsLawful : IsLawful pairs
pairs-IsLawful = record {
  get-empty = λ j. refl;
  get-insert = λ m k j p. ground (arith, lookup-remove m k j);
  get-remove = lookup-remove;
  listed-get_keys = listed-keys;
  get_keys-DistinctNames = keys-DistinctNames;
}

abbrev file_entry : Bytes → AgendaEntry
file_entry file = record { filename = codes "a.md"; filename_vdir = file }

abbrev small_cell : Ptr → Option Node
small_cell p =
    if p == 0
    then some (record { content = none; parent = none; children = 1 ∷ []; child_capacity = 4 })
    else if p == 1
    then some (record {
      content = some (file_entry (codes "a.ics"));
      parent = some 0;
      children = [];
      child_capacity = 0;
    })
    else none

abbrev small_heap : Heap AgendaEntry
small_heap = record { cell = small_cell; next = 2 }

pub small_heap-IsTree : IsTree small_heap
unfolding str_eq
small_heap-IsTree = record {
  linked = record {
    links = λ p c. ground arith;
    distinct = λ p. ground arith;
    fits = λ p. ground arith;
    unused = λ p far. ground arith;
  };
  unique = λ p. ground arith;
}

abbrev pub small_mount : Mount pairs
small_mount = record {
  heap = small_heap;
  fuse_root = 0;
  entries_vdir = (codes "a.ics", 1) ∷ [];
  vdir = codes "/v";
  file_extension = codes "md";
  files = λ p. some (codes "text");
  can_write = λ p. true;
  can_remove = λ p. true;
  clock = 7;
  uuid = λ n. codes "u";
  uuid_count = 0;
}

pub small_mount-IsIndexed : IsIndexed small_mount
small_mount-IsIndexed = record {
  sound = λ k p found. elim (Bool-cases (str_eq (codes "a.ics") k)) [
    | inl here ↦
        let same : p ≡ 1 = ground arith in
        (file_entry (codes "a.ics"), rw same refl, (str_eq_iff (codes "a.ics") k).0 here)
    | inr other ↦ ground arith
  ];
  complete = λ p e c. elim (Bool-cases (p == 1)) [
    | inl here ↦
        let same : p ≡ 1 = ground arith in
        let mine : file_entry (codes "a.ics") ≡ e = cc (rw same at c) in
        rw (← mine, same, str_eq_refl (codes "a.ics")) refl
    | inr other ↦ ground arith
  ];
}

create_fuse_node-IsIndexed_example :
    Returns
      (λ p s'.
        (content_of s'.heap p ≡ some (file_entry (codes "b.ics"))) × IsTree s'.heap × IsIndexed s')
      (create_fuse_node (file_entry (codes "b.ics")) small_mount)
unfolding str_eq
create_fuse_node-IsIndexed_example =
    create_fuse_node-IsIndexed pairs-IsLawful small_mount small_heap-IsTree small_mount-IsIndexed
      (file_entry (codes "b.ics")) refl

delete_fuse_node-IsIndexed_example :
    Returns (λ _ s'. IsTree s'.heap × IsIndexed s') (delete_fuse_node 1 small_mount)
delete_fuse_node-IsIndexed_example =
    delete_fuse_node-IsIndexed pairs-IsLawful small_mount small_heap-IsTree small_mount-IsIndexed 1
      refl refl
