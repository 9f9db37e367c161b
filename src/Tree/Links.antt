-- ===== src/Tree/Links.antt =====
-- The links of the nodes in a heap, seen from both ends, and what each operation of tree.c does to
-- them. The proofs about the invariant use only these effects.
use ical_fs.Base.{
  ℕ, ◌≤◌, ◌≡◌, refl, Bool, false, ◌||◌, Option, none, some, List, [], ◌∷◌, ◌++◌, arith, ◌==◌,
  if◌then◌else◌, is_some, length,
}
use ical_fs.Tree.{Ptr, Heap}

abbrev pub has : Ptr → List Ptr → Bool
has c [] = false
has c (d ∷ ds) = c == d || has c ds

-- The list without the first occurrence of the pointer.
abbrev pub without : Ptr → List Ptr → List Ptr
without c [] = []
without c (d ∷ ds) = let rest = without c ds in if c == d then ds else d ∷ rest

pub without-has : (c : Ptr) (cs : List Ptr) → has c cs ≡ false → without c cs ≡ cs
without-has c [] h = refl
without-has c (d ∷ ds) h = ground (arith, without-has c ds)

pub length-without-le : (c : Ptr) (cs : List Ptr) → length (without c cs) ≤ length cs
length-without-le c [] = omega arith
length-without-le c (d ∷ ds) = ground (arith, length-without-le c ds)

module _ {D : Type 0} where
  abbrev pub live : Heap D → Ptr → Bool
  live h p = is_some (h.cell p)

  abbrev pub children_of : Heap D → Ptr → List Ptr
  children_of h p = elim (h.cell p) [ some n ↦ n.children | none ↦ [] ]

  abbrev pub parent_of : Heap D → Ptr → Option Ptr
  parent_of h p = elim (h.cell p) [ some n ↦ n.parent | none ↦ none ]

  abbrev pub content_of : Heap D → Ptr → Option D
  content_of h p = elim (h.cell p) [ some n ↦ n.content | none ↦ none ]

  abbrev pub capacity_of : Heap D → Ptr → ℕ
  capacity_of h p = elim (h.cell p) [ some n ↦ n.child_capacity | none ↦ 0 ]

  -- `h'` has the nodes of `h` with their data, and the same addresses are free.
  pub record SameNodes (h h' : Heap D) : Type 0 where
    pub live_same : (x : Ptr) → live h' x ≡ live h x
    pub content_same : (x : Ptr) → content_of h' x ≡ content_of h x
    pub next_same : h'.next ≡ h.next

  -- `child` has become the last child of `parent`.
  pub record Added (parent child : Ptr) (h h' : Heap D) : Type 0 where
    pub nodes : SameNodes h h'
    pub children_added :
        (x : Ptr)
        → children_of h' x
          ≡ (if x == parent then children_of h x ++ child ∷ [] else children_of h x)
    pub parent_set :
        (x : Ptr) → parent_of h' x ≡ (if x == child then some parent else parent_of h x)
    pub room :
        (x : Ptr)
        → length (children_of h x) ≤ capacity_of h x
        → length (children_of h' x) ≤ capacity_of h' x

  -- `child` has left its parent, if it had one.
  pub record Detached (child : Ptr) (h h' : Heap D) : Type 0 where
    pub nodes : SameNodes h h'
    pub children_left : (x : Ptr) → children_of h' x ≡ without child (children_of h x)
    pub parent_cleared : (x : Ptr) → parent_of h' x ≡ (if x == child then none else parent_of h x)
    pub room :
        (x : Ptr)
        → length (children_of h x) ≤ capacity_of h x
        → length (children_of h' x) ≤ capacity_of h' x
