-- ===== src/Tree.antt =====
-- tree.c: nodes that hold a datum, a parent pointer and an array of child pointers, in the heap.
-- The datum stands in its node, since each node owns its own; the array is the list of its
-- `child_count` entries. A pointer that may be `NULL` is an `Option`.
pub mod Links
pub mod Effects
pub mod Moves
pub mod Freeing
use ical_fs.Base.{
  ℕ, zero, suc, ◌+◌, ◌*◌, Bool, true, false, Option, none, some, List, [], ◌∷◌, ◌++◌, ltb, ◌==◌,
  if◌then◌else◌, length, Cmd, Run, ok, fault, dangling, out_of_bounds, out_of_fuel, pure, fail,
  and_then, ◌>>=◌, ◌>>◌, each,
}

abbrev pub Ptr : Type 0
Ptr = ℕ

pub record TreeNode (D : Type 0) : Type 0 where
  pub content : Option D
  pub parent : Option Ptr
  pub children : List Ptr
  pub child_capacity : ℕ

-- `next` is the address that the next `malloc` gives.
pub record Heap (D : Type 0) : Type 0 where
  pub cell : Ptr → Option (TreeNode D)
  pub next : Ptr

-- The position of a child in the array.
child_index : Ptr → List Ptr → Option ℕ
child_index node [] = none
child_index node (c ∷ cs) =
    let rest = child_index node cs in
    if c == node then some 0 else elim rest [ some i ↦ some (suc i) | none ↦ none ]

-- Each entry behind the position moves one place to the front.
shift_left : ℕ → List Ptr → List Ptr
shift_left i [] = []
shift_left zero (c ∷ cs) = cs
shift_left (suc i) (c ∷ cs) = c ∷ shift_left i cs

module _ {D : Type 0} where
  unfoldable pub write : Ptr → Option (TreeNode D) → Heap D → Heap D
  write p n h = record h { cell = λ q. if q == p then n else h.cell q }

  -- `*p`
  unfoldable pub load : Ptr → Cmd (Heap D) (TreeNode D)
  load p h = elim (h.cell p) [ some n ↦ ok n h | none ↦ fault dangling ]

  unfoldable pub store : Ptr → TreeNode D → Cmd (Heap D) (Unit {0})
  store p n h = ok tt (write p (some n) h)

  unfoldable pub create_tree_node : Option D → Cmd (Heap D) Ptr
  create_tree_node datum h =
      ok h.next
        (record (write h.next
          (some (record { content = datum; parent = none; children = []; child_capacity = 0 })) h) {
            next = suc h.next;
          })

  unfoldable pub grow : TreeNode D → ℕ
  grow n =
      if length n.children == n.child_capacity
      then (if n.child_capacity == 0 then 4 else n.child_capacity * 2)
      else n.child_capacity

  unfoldable pub add_child : Ptr → Ptr → Cmd (Heap D) ℕ
  unfolding grow
  add_child parent child = do
    n ← load parent
    store parent (record n { children = n.children ++ child ∷ []; child_capacity = grow n })
    c ← load child
    store child (record c { parent = some parent })
    pure 0

  unfoldable pub update_node_data : Ptr → Option D → Cmd (Heap D) (Unit {0})
  update_node_data node datum = do n ← load node; store node (record n { content = datum })

  unfoldable pub node_has_children : TreeNode D → Bool
  node_has_children n = ltb 0 (length n.children)

  -- Where the node is not among the children the search leaves `(size_t)-1`, and the shift writes
  -- in front of the array.
  drop_child : Ptr → Ptr → Cmd (Heap D) (Unit {0})
  drop_child parent node = do
    n ← load parent
    elim (child_index node n.children) [
      | some i ↦ store parent (record n { children = shift_left i n.children })
      | none ↦ fail out_of_bounds
    ]

  unfoldable pub detach_tree_node : Ptr → Cmd (Heap D) Bool
  unfolding drop_child child_index shift_left
  detach_tree_node node = do
    n ← load node
    elim n.parent [
      | none ↦ pure false
      | some parent ↦ do
        drop_child parent node
        m ← load node
        store node (record m { parent = none })
        pure true
    ]

  unfoldable pub move_node : Ptr → Ptr → Cmd (Heap D) ℕ
  move_node new_parent child = do detach_tree_node child; add_child new_parent child

  -- The recursion into the children takes one unit of fuel for each level.
  unfoldable pub free_tree : ℕ → Ptr → Cmd (Heap D) (Unit {0})
  free_tree zero node = fail out_of_fuel
  free_tree (suc fuel) node = do
    n ← load node
    each (free_tree fuel) n.children
    λ h. ok tt (write node none h)
