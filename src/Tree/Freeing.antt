-- ===== src/Tree/Freeing.antt =====
-- `free_tree`: exactly the nodes at and below the one that is freed are gone, each freed once.
use ical_fs.Base.{
  ℕ, zero, suc, ◌+◌, ◌≤◌, ◌<◌, ◌≡◌, refl, sym, ap, ◌∙◌, ◌≢◌, ◌⊎◌, inl, inr, true, none, some, List,
  [], ◌∷◌, arith, ◌==◌, Bool-cases, Option-cases, ok, each, Returns, Returns-mono, Returns-and_then,
  and_then, ◌>>=◌, ◌>>◌,
}
use mathlib.Core.Path.{subst}
use ical_fs.Tree.{Ptr, Heap, load, write, free_tree}
use ical_fs.Tree.Links.{has, live, children_of}
use ical_fs.Tree.Moves.{Distinct, Linked}

module _ {D : Type 0} where
  -- The second node is at or below the first.
  pub data Under (h : Heap D) : Ptr → Ptr → Type 0 where
    itself : {p : Ptr} → Under h p p
    below : {p x : Ptr} (c : Ptr) → has c (children_of h p) ≡ true → Under h c x → Under h p x

  -- At or below one of the nodes.
  abbrev pub UnderAny : Heap D → List Ptr → Ptr → Type 0
  UnderAny h cs x = (c : Ptr) × (has c cs ≡ true) × Under h c x

  Under-children : {h : Heap D} {p x : Ptr} → Under h p x → (p ≡ x) ⊎ UnderAny h (children_of h p) x
  Under-children itself = inl refl
  Under-children (below c m u) = inr (c, m, u)

  -- No node is below itself: each has a depth, one more than its parent's.
  pub record HasDepth (h : Heap D) (depth : Ptr → ℕ) : Type 0 where
    pub deeper : (p c : Ptr) → has c (children_of h p) ≡ true → depth c ≡ suc (depth p)

  -- The nodes with the property are gone, and no other node has changed.
  pub record Freed (P : Ptr → Type 0) (k k' : Heap D) : Type 0 where
    pub gone : (x : Ptr) → P x → k'.cell x ≡ none
    pub kept : (x : Ptr) → (P x → ⊥) → k'.cell x ≡ k.cell x
    pub next_same : k'.next ≡ k.next

  module _ (h : Heap D) (l : Linked h) (depth : Ptr → ℕ) (a : HasDepth h depth) where
    Under-deeper : {p x : Ptr} → Under h p x → depth p ≤ depth x
    Under-deeper itself = omega arith
    Under-deeper {p = p} (below c m u) = ground (arith, Under-deeper u, a.deeper p c m)

    same_parent :
        (p q c : Ptr) → has c (children_of h p) ≡ true → has c (children_of h q) ≡ true → p ≡ q
    same_parent p q c m n = ground (arith, l.links p c, l.links q c)

    -- A node below another has its parent there too.
    Under-parent :
        {p x : Ptr}
        → Under h p x
        → (p ≡ x) ⊎ ((q : Ptr) × (has x (children_of h q) ≡ true) × Under h p q)
    Under-parent itself = inl refl
    Under-parent {p = p} {x = x} (below c m u) = elim (Under-parent u) [
      | inl here ↦ inr (p, rw (← here) m, itself)
      | inr (q, n, v) ↦ inr (q, n, below c m v)
    ]

    -- Two nodes above a third are one above the other.
    Under-linear : {c d x : Ptr} → Under h c x → Under h d x → Under h c d ⊎ Under h d c
    Under-linear itself v = inr v
    Under-linear {c = c} {d = d} (below e m u) v = elim (Under-linear u v) [
      | inl first ↦ inl (below e m first)
      | inr second ↦ elim (Under-parent second) [
        | inl here ↦ inl (below e m (rw here itself))
        | inr (q, n, w) ↦ inr (rw (same_parent q c e n m) at w)
      ]
    ]

    not_sibling :
        (p c d : Ptr)
        → has c (children_of h p) ≡ true
        → has d (children_of h p) ≡ true
        → c ≢ d
        → Under h c d
        → ⊥
    not_sibling p c d m n ne u = elim (Under-parent u) [
      | inl here ↦ ne here
      | inr (q, k, v) ↦
          let same = same_parent q p d k n in
          let down : Under h c p = rw same at v in ground (arith, Under-deeper down, a.deeper p c m)
    ]

    -- Nothing is below two siblings.
    pub siblings_apart :
        (p c d x : Ptr)
        → has c (children_of h p) ≡ true
        → has d (children_of h p) ≡ true
        → c ≢ d
        → Under h c x
        → Under h d x
        → ⊥
    siblings_apart p c d x m n ne u v = elim (Under-linear u v) [
      | inl first ↦ not_sibling p c d m n ne first
      | inr second ↦ not_sibling p d c n m (λ e. ne (sym e)) second
    ]

    module _ (bound : ℕ) (bounded : (x : Ptr) → live h x ≡ true → depth x ≤ bound) where
      -- What the fuel is enough for: the heap may have lost other nodes, but none of those to free.
      abbrev FreesBelow : ℕ → Type 0
      FreesBelow fuel =
          (node : Ptr) (k : Heap D)
          → live h node ≡ true
          → bound < fuel + depth node
          → ((x : Ptr) → Under h node x → k.cell x ≡ h.cell x)
          → Returns (λ _ k'. Freed (Under h node) k k') (free_tree fuel node k)

      each-free_tree-Freed :
          (fuel : ℕ)
          → FreesBelow fuel
          → (p : Ptr) (cs : List Ptr) (k : Heap D) → bound < suc fuel + depth p
          → Distinct cs
          → ((c : Ptr) → has c cs ≡ true → has c (children_of h p) ≡ true)
          → ((x : Ptr) → UnderAny h cs x → k.cell x ≡ h.cell x)
          → Returns (λ _ k'. Freed (UnderAny h cs) k k') (each (free_tree fuel) cs k)
      each-free_tree-Freed fuel ih p [] k enough distinct mine same = record {
        gone = λ x (c, m, u). cc;
        kept = λ x out. refl;
        next_same = refl;
      }
      each-free_tree-Freed fuel ih p (c ∷ cs) k enough (out, distinct) mine same =
          let first : has c (children_of h p) ≡ true = mine c (ground arith) in
          let apart : (x : Ptr) → Under h c x → UnderAny h cs x → ⊥ = λ x u (d, m, v).
            siblings_apart p c d x first (mine d (ground arith))
              (λ e. ground (arith, ap (λ z. has z cs) e)) u v in
          Returns-and_then _ _ (free_tree fuel c k) (λ _. each (free_tree fuel) cs)
            (ih c k (ground (arith, l.links p c)) (omega (arith, enough, a.deeper p c first))
              (λ x u. same x (c, ground arith, u)))
            λ _ k1 f.
              Returns-mono _ _ (each (free_tree fuel) cs k1)
                (each-free_tree-Freed fuel ih p cs k1 enough distinct (λ d m. mine d (ground arith))
                  (λ x (d, m, v).
                    f.kept x (λ u. apart x u (d, m, v)) ∙ same x (d, ground arith, v)))
                λ _ k' g. record {
                  gone = λ x (d, m, v). elim (Bool-cases (d == c)) [
                    | inl here ↦
                        let same_node : d ≡ c = ground arith in
                        let u : Under h c x = rw same_node at v in g.kept x (apart x u) ∙ f.gone x u
                    | inr later ↦ g.gone x (d, ground arith, v)
                  ];
                  kept = λ x none_above.
                      g.kept x (λ (d, m, v). none_above (d, ground arith, v))
                      ∙ f.kept x (λ u. none_above (c, ground arith, u));
                  next_same = g.next_same ∙ f.next_same;
                }

      free_tree-FreesBelow : (fuel : ℕ) → FreesBelow fuel
      unfolding free_tree load write
      free_tree-FreesBelow zero node k live_node enough same =
          absurd (omega (arith, enough, bounded node live_node))
      free_tree-FreesBelow (suc fuel) node k live_node enough same =
          elim (Option-cases (h.cell node)) [
            | inl dead ↦ absurd (ground arith)
            | inr (n, cell) ↦
                let there : k.cell node ≡ some n = same node itself ∙ cell in
                let children : children_of h node ≡ n.children = ground arith in
                rw (free_tree, load, there, ◌>>=◌, ◌>>◌, and_then)
                  (Returns-and_then _ _ (each (free_tree fuel) n.children k)
                    (λ _ h. ok tt (write node none h))
                    (each-free_tree-Freed fuel (free_tree-FreesBelow fuel) node n.children k enough
                      (subst Distinct children (l.distinct node)) (λ c m. ground arith)
                      (λ x (c, m, u). same x (below c (ground arith) u)))
                    λ _ k' f. record {
                      gone = λ x u. elim (Under-children u) [
                        | inl here ↦ ground (arith, here)
                        | inr (c, m, v) ↦
                            let wiped : k'.cell x ≡ none = f.gone x (c, ground arith, v) in
                            ground (arith, wiped)
                      ];
                      kept = λ x out.
                          let apart : x ≢ node = λ e. out (rw e itself) in
                          let before = f.kept x (λ (c, m, v). out (below c (ground arith) v)) in
                          ground (arith, before);
                      next_same = f.next_same;
                    })
          ]

      -- In a linked heap in which no node is below itself and none is deeper than the bound, a live node
      -- is freed with more fuel than the bound: no node is freed twice or used when it is gone, the
      -- nodes at and below it are gone, and all others are as before.
      pub free_tree-Freed :
          (node : Ptr) (fuel : ℕ)
          → live h node ≡ true
          → bound < fuel
          → Returns (λ _ h'. Freed (Under h node) h h') (free_tree fuel node h)
      free_tree-Freed node fuel live_node enough =
          free_tree-FreesBelow fuel node h live_node (omega (arith, enough)) (λ x u. refl)
