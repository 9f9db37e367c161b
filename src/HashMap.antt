-- ===== src/HashMap.antt =====
-- hashmap.h as the program uses it. The table itself is the code of another project, so it is a
-- parameter of the development: its operations, and what its callers rely on. The values are the
-- pointers of tree nodes, and the keys file names, which `hashmap_insert` copies.
use ical_fs.Base.{
  ◌≡◌, Bool, false, ◌||◌, Option, none, some, List, [], ◌∷◌, Bytes, str_eq, if◌then◌else◌, is_some,
}
use ical_fs.Tree.{Ptr}

pub record HashMap : Type 1 where
  pub Map : Type 0
  pub empty : Map
  pub get : Map → Bytes → Option Ptr
  pub insert : Map → Bytes → Ptr → Map
  pub remove : Map → Bytes → Map
  pub get_keys : Map → List Bytes

abbrev pub listed : Bytes → List Bytes → Bool
listed k [] = false
listed k (j ∷ js) = str_eq k j || listed k js

abbrev pub DistinctNames : List Bytes → Type 0
DistinctNames [] = Unit
DistinctNames (k ∷ ks) = (listed k ks ≡ false) × DistinctNames ks

pub record IsLawful (M : HashMap) : Type 0 where
  pub get-empty : (j : Bytes) → M.get M.empty j ≡ none
  pub get-insert :
      (m : M.Map) (k j : Bytes) (p : Ptr)
      → M.get (M.insert m k p) j ≡ (if str_eq k j then some p else M.get m j)
  pub get-remove :
      (m : M.Map) (k j : Bytes) → M.get (M.remove m k) j ≡ (if str_eq k j then none else M.get m j)
  pub listed-get_keys : (m : M.Map) (j : Bytes) → listed j (M.get_keys m) ≡ is_some (M.get m j)
  pub get_keys-DistinctNames : (m : M.Map) → DistinctNames (M.get_keys m)
