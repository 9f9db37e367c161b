-- ===== src/Tree/Moves.antt =====
-- The tree stays linked: every node is listed once among the children of its parent and nowhere
-- else, and the operations of tree.c that relink nodes keep it so and run without a fault.
use ical_fs.Base.{
  ◌≤◌, ◌≡◌, refl, inl, inr, Bool, true, false, not, ◌&&◌, ◌||◌, Option, none, some, List, [], ◌∷◌,
  ◌++◌, arith, ◌==◌, if◌then◌else◌, Bool-cases, Option-cases, is_some, length, Returns, sym, ◌∙◌,
  Returns-and_then, Returns-mono,
}
use ical_fs.Tree.{Ptr, Heap, add_child, detach_tree_node, move_node}
use ical_fs.Tree.Links.{
  has, without, without-has, live, children_of, parent_of, capacity_of, SameNodes, Added, Detached,
}
use ical_fs.Tree.Effects.{
  detach_tree_node-free, add_child-added, added-Added, detach_tree_node-detached, detached-Detached,
}

abbrev is_ptr : Ptr → Option Ptr → Bool
is_ptr p none = false
is_ptr p (some q) = p == q

abbrev pub Distinct : List Ptr → Type 0
Distinct [] = Unit
Distinct (c ∷ cs) = (has c cs ≡ false) × Distinct cs

pub has-append : (x : Ptr) (cs ds : List Ptr) → has x (cs ++ ds) ≡ (has x cs || has x ds)
has-append x [] ds = refl
has-append x (c ∷ cs) ds = ground (arith, has-append x cs ds)

Distinct-append :
    (c : Ptr) (cs : List Ptr) → Distinct cs → has c cs ≡ false → Distinct (cs ++ c ∷ [])
Distinct-append c [] d h = (refl, tt)
Distinct-append c (e ∷ cs) (out, d) h =
    (ground (arith, has-append e cs (c ∷ [])), Distinct-append c cs d (ground arith))

pub has-without :
    (x c : Ptr) (cs : List Ptr) → Distinct cs → has x (without c cs) ≡ (has x cs && not (x == c))
has-without x c [] d = refl
has-without x c (e ∷ cs) (out, d) = ground (arith, has-without x c cs d)

Distinct-without : (c : Ptr) (cs : List Ptr) → Distinct cs → Distinct (without c cs)
Distinct-without c [] d = tt
Distinct-without c (e ∷ cs) (out, d) = ground (arith, has-without e c cs d, Distinct-without c cs d)

module _ {D : Type 0} where
  pub record Linked (h : Heap D) : Type 0 where
    pub links : (p c : Ptr) → has c (children_of h p) ≡ is_ptr p (parent_of h c)
    pub distinct : (p : Ptr) → Distinct (children_of h p)
    pub fits : (p : Ptr) → length (children_of h p) ≤ capacity_of h p
    pub unused : (p : Ptr) → h.next ≤ p → live h p ≡ false

  Added-Linked :
      (p c : Ptr) (h h' : Heap D) → Linked h → parent_of h c ≡ none → Added p c h h' → Linked h'
  Added-Linked p c h h' l free a = record {
    links = λ x y. ground (
      arith,
      a.children_added x,
      a.parent_set y,
      l.links x y,
      has-append y (children_of h x) (c ∷ []),
    );
    distinct = λ x. elim (Bool-cases (x == p)) [
      | inl y ↦
          rw (a.children_added x)
            (rw y (Distinct-append c _ (l.distinct x) (ground (arith, l.links x c))))
      | inr n ↦ rw (a.children_added x) (rw n (l.distinct x))
    ];
    fits = λ x. a.room x (l.fits x);
    unused = λ x far. a.nodes.live_same x ∙ l.unused x (ground (arith, a.nodes.next_same));
  }

  Detached-Linked : (c : Ptr) (h h' : Heap D) → Linked h → Detached c h h' → Linked h'
  Detached-Linked c h h' l a = record {
    links = λ x y. ground (
      arith,
      a.children_left x,
      a.parent_cleared y,
      l.links x y,
      has-without y c (children_of h x) (l.distinct x),
    );
    distinct = λ x. rw (a.children_left x) (Distinct-without c _ (l.distinct x));
    fits = λ x. a.room x (l.fits x);
    unused = λ x far. a.nodes.live_same x ∙ l.unused x (ground (arith, a.nodes.next_same));
  }

  -- In a linked heap, a live node without a parent becomes the last child of a live node: the run
  -- has no fault and the heap stays linked.
  pub add_child-Linked :
      (p c : Ptr) (h : Heap D)
      → Linked h
      → live h p ≡ true
      → live h c ≡ true
      → parent_of h c ≡ none
      → Returns (λ r h'. (r ≡ 0) × Linked h' × Added p c h h') (add_child p c h)
  add_child-Linked p c h l lp lc free = elim (Option-cases (h.cell p)) [
    | inl dead ↦ cc
    | inr (n, e) ↦ elim (Option-cases (h.cell c)) [
      | inl dead ↦ cc
      | inr (m, f) ↦
          let a = added-Added p c h e f in
          rw (add_child-added p c h e f) (refl, Added-Linked p c h _ l free a, a)
    ]
  ]

  pub free-Detached : (c : Ptr) (h : Heap D) → Linked h → parent_of h c ≡ none → Detached c h h
  free-Detached c h l free = record {
    nodes = record { live_same = λ x. refl; content_same = λ x. refl; next_same = refl };
    children_left = λ x. sym (without-has c _ (ground (arith, l.links x c)));
    parent_cleared = λ x. ground arith;
    room = λ x fits. fits;
  }

  -- In a linked heap, a live node leaves its parent, and the result says whether it had one: the
  -- run has no fault, since the node is found among the parent's children, and the heap stays
  -- linked.
  pub detach_tree_node-Linked :
      (c : Ptr) (h : Heap D)
      → Linked h
      → live h c ≡ true
      → Returns
          (λ r h'. (r ≡ is_some (parent_of h c)) × Linked h' × Detached c h h')
          (detach_tree_node c h)
  detach_tree_node-Linked c h l lc = elim (Option-cases (h.cell c)) [
    | inl dead ↦ cc
    | inr (m, f) ↦ elim (Option-cases m.parent) [
      | inl top ↦
          rw (detach_tree_node-free c h f top) (ground arith, l, free-Detached c h l (ground arith))
      | inr (p, up) ↦ elim (Option-cases (h.cell p)) [
        | inl dead ↦ absurd (ground (arith, l.links p c))
        | inr (n, e) ↦
            let a = detached-Detached p c h e f (λ x ne. ground (arith, l.links x c)) in
            rw (detach_tree_node-detached p c h e f up (ground (arith, l.links p c)))
              (ground arith, Detached-Linked c h _ l a, a)
      ]
    ]
  ]

  -- `child` has moved: it is the last child of `parent`, and a child of no other node.
  pub record Moved (parent child : Ptr) (h h' : Heap D) : Type 0 where
    pub nodes : SameNodes h h'
    pub children_moved :
        (x : Ptr)
        → children_of h' x ≡ (
            if x == parent
            then without child (children_of h x) ++ child ∷ []
            else without child (children_of h x))
    pub parent_moved :
        (x : Ptr) → parent_of h' x ≡ (if x == child then some parent else parent_of h x)

  steps-Moved :
      (p c : Ptr) (h h' h'' : Heap D) → Detached c h h' → Added p c h' h'' → Moved p c h h''
  steps-Moved p c h h' h'' d a = record {
    nodes = record {
      live_same = λ x. a.nodes.live_same x ∙ d.nodes.live_same x;
      content_same = λ x. a.nodes.content_same x ∙ d.nodes.content_same x;
      next_same = a.nodes.next_same ∙ d.nodes.next_same;
    };
    children_moved = λ x. ground (arith, a.children_added x, d.children_left x);
    parent_moved = λ x. ground (arith, a.parent_set x, d.parent_cleared x);
  }

  -- In a linked heap, a live node moves below a live node, wherever it stood before: the run has
  -- no fault, the node becomes the last child there, every other list of children only loses it,
  -- and the heap stays linked.
  pub move_node-Linked :
      (p c : Ptr) (h : Heap D)
      → Linked h
      → live h p ≡ true
      → live h c ≡ true
      → Returns (λ r h'. (r ≡ 0) × Linked h' × Moved p c h h') (move_node p c h)
  unfolding move_node
  move_node-Linked p c h l lp lc =
      Returns-and_then _ _ (detach_tree_node c h) _ (detach_tree_node-Linked c h l lc)
        λ r h' (_, l', d).
          Returns-mono _ _ (add_child p c h')
            (add_child-Linked p c h' l' (d.nodes.live_same p ∙ lp) (d.nodes.live_same c ∙ lc)
              (ground (arith, d.parent_cleared c)))
            λ s h'' (z, l'', a). (z, l'', steps-Moved p c h h' h'' d a)
