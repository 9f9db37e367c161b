-- ===== src/Store/Names.antt =====
-- The choice of a file name among siblings: the loops of `add_fuse_child` end, and with a name that
-- no sibling has.
use ical_fs.Base.{
  ℕ, zero, suc, ◌≤◌, ◌<◌, ◌≡◌, refl, ap, ◌≢◌, inl, inr, Bytes, str_eq, str_eq_iff, true, false, not,
  Option, none, some, List, [], ◌∷◌, arith, Bool-cases, length, All, Run, ok, if◌then◌else◌,
}
use ical_fs.Path.{filename_numbered}
use ical_fs.Path.Names.{filename_numbered-injective}
use ical_fs.Tree.{Ptr, Heap, load}
use ical_fs.Tree.Links.{live, content_of}
use ical_fs.HashMap.{HashMap, listed}
use ical_fs.Store.{AgendaEntry, Mount, get_node_filename, is_unique, pick_filename}

abbrev pub name_in : Option AgendaEntry → Bytes
name_in none = []
name_in (some e) = e.filename

-- The file name that a node shows, "" for the root's.
abbrev pub filename_of : Heap AgendaEntry → Ptr → Bytes
filename_of h p = name_in (content_of h p)

abbrev pub file_in : Option AgendaEntry → Option Bytes
file_in none = none
file_in (some e) = some e.filename_vdir

-- The file name in the vdir that the entry of a node has.
abbrev pub vdir_name_of : Heap AgendaEntry → Ptr → Option Bytes
vdir_name_of h p = file_in (content_of h p)

abbrev pub names_of : Heap AgendaEntry → List Ptr → List Bytes
names_of h [] = []
names_of h (c ∷ cs) = filename_of h c ∷ names_of h cs

abbrev pub AllLive : Heap AgendaEntry → List Ptr → Type 0
AllLive h = All (λ c. live h c ≡ true)

length-names_of : (h : Heap AgendaEntry) (cs : List Ptr) → length (names_of h cs) ≡ length cs
length-names_of h [] = refl
length-names_of h (c ∷ cs) = ap suc (length-names_of h cs)

removed : Bytes → List Bytes → List Bytes
removed k [] = []
removed k (j ∷ js) = let rest = removed k js in if str_eq k j then js else j ∷ rest

length-removed :
    (k : Bytes) (js : List Bytes) → listed k js ≡ true → length js ≡ suc (length (removed k js))
unfolding removed
length-removed k [] h = cc
length-removed k (j ∷ js) h = ground (arith, length-removed k js)

listed-removed :
    (i k : Bytes) (js : List Bytes) → i ≢ k → listed i js ≡ true → listed i (removed k js) ≡ true
unfolding removed
listed-removed i k [] ne h = cc
listed-removed i k (j ∷ js) ne h =
    ground (arith, listed-removed i k js ne, str_eq_iff i j, str_eq_iff k j)

module _ {M : HashMap} (s : Mount M) where
  is_unique-listed :
      (new : Bytes) (cs : List Ptr)
      → AllLive s.heap cs
      → is_unique new cs s ≡ ok (not (listed new (names_of s.heap cs))) s
  unfolding is_unique load get_node_filename
  is_unique-listed new [] h = refl
  is_unique-listed new (c ∷ cs) (l, h) = ground (arith, is_unique-listed new cs h)

  -- What the loop gives: a name that no child has.
  abbrev pub Picked : Bytes → Bytes → List Ptr → Run (Mount M) Bytes → Type 0
  Picked filename new cs r =
      (name : Bytes) × (r ≡ ok name s)
      × (listed name (names_of s.heap cs) ≡ false)
      × (listed new (names_of s.heap cs) ≡ false → name ≡ new)

  -- `left` holds the names that later rounds can still meet.
  pick_filename-numbered :
      (fuel : ℕ) (filename : Bytes) (j : ℕ) (cs : List Ptr) (left : List Bytes)
      → AllLive s.heap cs
      → length left < fuel
      → ((i : ℕ)
          → j ≤ i
          → listed (filename_numbered filename i) (names_of s.heap cs) ≡ true
          → listed (filename_numbered filename i) left ≡ true)
      → Picked filename
          (filename_numbered filename j)
          cs
          (pick_filename fuel filename (filename_numbered filename j) (suc j) cs s)
  unfolding pick_filename
  pick_filename-numbered zero filename j cs left l enough met = absurd (omega arith)
  pick_filename-numbered (suc fuel) filename j cs left l enough met =
      let new = filename_numbered filename j in
      elim (Bool-cases (listed new (names_of s.heap cs))) [
        | inl taken ↦
            let (name, ran, free, same) =
              pick_filename-numbered fuel filename (suc j) cs (removed new left) l
                (omega (arith, length-removed new left (met j (omega arith) taken)))
                (λ i le here.
                  listed-removed (filename_numbered filename i) new left
                    (λ e. absurd (omega (arith, filename_numbered-injective filename i j e)))
                    (met i (omega arith) here)) in
            (name, ground (arith, is_unique-listed new cs l), free, λ u. cc)
        | inr free ↦ (new, ground (arith, is_unique-listed new cs l), free, λ u. refl)
      ]

  -- With live children and two rounds more than there are of them, the loop ends without a fault,
  -- with a name that no child has; the name asked for is kept if no child has it.
  pub pick_filename_total :
      (filename : Bytes) (cs : List Ptr)
      → AllLive s.heap cs
      → Picked filename filename cs (pick_filename (suc (suc (length cs))) filename filename 1 cs s)
  unfolding pick_filename
  pick_filename_total filename cs l = elim (Bool-cases (listed filename (names_of s.heap cs))) [
    | inl taken ↦
        let (name, ran, free, same) =
          pick_filename-numbered (suc (length cs)) filename 1 cs (names_of s.heap cs) l
            (omega (arith, length-names_of s.heap cs)) (λ i le here. here) in
        (name, ground (arith, is_unique-listed filename cs l), free, λ u. cc)
    | inr free ↦ (filename, ground (arith, is_unique-listed filename cs l), free, λ u. refl)
  ]
