-- ===== src/Agenda/Rename/Placing.antt =====
-- Where `rename_node` leaves the node, and what its last part does.
use ical_fs.Base.{
  ◌≡◌, refl, ◌∙◌, ◌≢◌, inl, inr, Bytes, str_eq, str_eq_refl, true, false, Option, some, List, [],
  ◌∷◌, ◌++◌, arith, Option-cases, Bool-cases, ok, Returns, Returns-and_then, and_then,
  if◌then◌else◌, ◌==◌,
}
use ical_fs.Tree.{Ptr, Heap, move_node}
use ical_fs.Tree.Links.{has, live, without, children_of, parent_of}
use ical_fs.Tree.Moves.{Linked, move_node-Linked, has-without}
use ical_fs.HashMap.{HashMap, listed}
use ical_fs.Store.{AgendaEntry, Node, Mount, on_heap}
use ical_fs.Store.Names.{filename_of, names_of}
use ical_fs.Store.Siblings.{
  IsTree, UniqueNames, renamed, renamed-Renamed, content_of-renamed, Renamed-Linked,
  names_of-append, DistinctNames-append, DistinctNames-without,
}
use ical_fs.Store.Children.{Returns-on_heap}
use ical_fs.Ical.{Ical}
use ical_fs.Ical.Properties.{set_parent_child_relationship_to_component}
use ical_fs.Entry.{prepared}
use ical_fs.Entry.Stored.{Stored, file_of, write_ical_file-Stored}
use ical_fs.Agenda.Create.{write_parent_child_components}
use ical_fs.Status.{done}

-- `child` is the last child of `parent` under the name `name`, and its file has the text; all other
-- names and places are as before.
pub record Placed {M : HashMap} (name : Bytes) (parent child : Ptr) (file text : Bytes)
    (s s' : Mount M) : Type 0 where
  pub linked : Linked s'.heap
  pub live_same : (x : Ptr) → live s'.heap x ≡ live s.heap x
  pub renamed_to : filename_of s'.heap child ≡ name
  pub names_same : (x : Ptr) → x ≢ child → filename_of s'.heap x ≡ filename_of s.heap x
  pub children_placed :
      (x : Ptr)
      → children_of s'.heap x ≡ (
          if x == parent
          then without child (children_of s.heap x) ++ child ∷ []
          else without child (children_of s.heap x))
  pub parent_placed :
      (x : Ptr) → parent_of s'.heap x ≡ (if x == child then some parent else parent_of s.heap x)
  pub written : s'.files file ≡ some text
  pub others : (path : Bytes) → str_eq path file ≡ false → s'.files path ≡ s.files path
  pub rest_same : s' ≡ record s { heap = s'.heap; files = s'.files }

module _ {M : HashMap} (name : Bytes) (parent child : Ptr) (s s' : Mount M) {file text : Bytes}
    (p : Placed name parent child file text s s') where
  names_of-Placed :
      (cs : List Ptr) → has child cs ≡ false → names_of s'.heap cs ≡ names_of s.heap cs
  names_of-Placed [] out = refl
  names_of-Placed (d ∷ cs) out = ground (arith, p.names_same d, names_of-Placed cs)

  -- If the name was free below the parent, the placed node leaves a tree.
  pub Placed-IsTree :
      IsTree s.heap
      → listed name (names_of s.heap (without child (children_of s.heap parent))) ≡ false
      → IsTree s'.heap
  Placed-IsTree t free = record { linked = p.linked; unique = unique_at }
    where
      unique_at : UniqueNames s'.heap
      unique_at x =
          let cs = without child (children_of s.heap x) in
          let same = names_of-Placed cs (
            ground (arith, has-without child child (children_of s.heap x) (t.linked.distinct x))) in
          let old = DistinctNames-without s.heap child (children_of s.heap x) (t.unique x) in
          elim (Bool-cases (x == parent)) [
            | inl here ↦
                rw (p.children_placed x, here, names_of-append s'.heap cs child, same, p.renamed_to)
                  (DistinctNames-append name _ old (ground arith))
            | inr away ↦ rw (p.children_placed x, away, same) old
          ]

module _ ⦃I : Ical⦄ {M : HashMap} (name : Bytes) (parent child : Ptr) (s : Mount M) {n : Node}
    {e : AgendaEntry} where
  -- What is left of a rename when the name and the extension have been written.
  pub finishes :
      (F : Bytes → Option Bytes) (parent_ics moved : I.Component) (new : Bytes)
      → Linked s.heap
      → live s.heap parent ≡ true
      → s.heap.cell child ≡ some n
      → n.content ≡ some e
      → s.can_write (file_of s e) ≡ true
      → F (file_of s e) ≡ some new
      → ((path : Bytes) → str_eq path (file_of s e) ≡ false → F path ≡ s.files path)
      → Returns
          (λ r s'.
            (r ≡ done 0)
            × Placed name parent child
                (file_of s e)
                (I.as_ical_string
                  (prepared s.clock (set_parent_child_relationship_to_component parent_ics moved)))
                s
                s')
          (and_then
            (on_heap
              (move_node parent child)
              (record s { heap = renamed child name n e s.heap; files = F }))
            (λ _ s1.
              and_then
                (write_parent_child_components parent_ics child moved s1)
                (λ _. ok (done 0))))
  unfolding write_parent_child_components
  finishes F parent_ics moved new l lp c content may old others =
      let r = renamed-Renamed child name s.heap e c in
      let s0 = record s { heap = renamed child name n e s.heap; files = F } in
      Returns-and_then _ _ (on_heap (move_node parent child) s0) _
        (Returns-on_heap _ (move_node parent child) s0 (
          move_node-Linked parent child s0.heap (Renamed-Linked child name s.heap s0.heap l r)
            (r.live_same parent ∙ lp) (r.live_same child ∙ ground arith)))
        λ z s1 ((zero_result, l1, v), same).
          let (n1, c1) =
            live_cell s1.heap child
              (v.nodes.live_same child ∙ (r.live_same child ∙ ground arith)) in
          let e0 = record e { filename = name } in
          let s2 = record s0 { heap = s1.heap } in
          let t : Stored s2 child n1 e0 new = record {
            cell = c1;
            content =
                ground
                  (arith, v.nodes.content_same child, content_of-renamed child name s.heap n e);
            file = old;
          } in
          rw
            (
              same,
              write_ical_file-Stored s2 child
                  (set_parent_child_relationship_to_component parent_ics moved) t,
              may,
            )
            (
              refl,
              record {
                linked = l1;
                live_same = λ x. v.nodes.live_same x ∙ r.live_same x;
                renamed_to = ground (arith, v.nodes.content_same child, r.name_set child);
                names_same = λ x ne. ground (arith, v.nodes.content_same x, r.name_set x);
                children_placed = λ x. ground (arith, v.children_moved x, r.children_same x);
                parent_placed = λ x. ground (arith, v.parent_moved x, r.parent_same x);
                written = ground (arith, str_eq_refl (file_of s e));
                others = λ path other. ground (arith, others path other);
                rest_same = refl;
              },
            )
    where
      live_cell :
          (h : Heap AgendaEntry) (p : Ptr) → live h p ≡ true → (m : Node) × (h.cell p ≡ some m)
      live_cell h p lv = elim (Option-cases (h.cell p)) [
        | inl dead ↦ cc
        | inr (m, there) ↦ (m, there)
      ]

  -- What is left of a rename to the top level, where nothing more is written.
  pub finishes_top :
      (F : Bytes → Option Bytes) (new : Bytes)
      → Linked s.heap
      → live s.heap parent ≡ true
      → s.heap.cell child ≡ some n
      → n.content ≡ some e
      → F (file_of s e) ≡ some new
      → ((path : Bytes) → str_eq path (file_of s e) ≡ false → F path ≡ s.files path)
      → Returns
          (λ r s'. (r ≡ done 0) × Placed name parent child (file_of s e) new s s')
          (and_then
            (on_heap
              (move_node parent child)
              (record s { heap = renamed child name n e s.heap; files = F }))
            (λ _. ok (done 0)))
  finishes_top F new l lp c content old others =
      let r = renamed-Renamed child name s.heap e c in
      let s0 = record s { heap = renamed child name n e s.heap; files = F } in
      Returns-and_then _ _ (on_heap (move_node parent child) s0) _
        (Returns-on_heap _ (move_node parent child) s0 (
          move_node-Linked parent child s0.heap (Renamed-Linked child name s.heap s0.heap l r)
            (r.live_same parent ∙ lp) (r.live_same child ∙ ground arith)))
        λ z s1 ((zero_result, l1, v), same). (
          refl,
          rw same (record {
            linked = l1;
            live_same = λ x. v.nodes.live_same x ∙ r.live_same x;
            renamed_to = ground (arith, v.nodes.content_same child, r.name_set child);
            names_same = λ x ne. ground (arith, v.nodes.content_same x, r.name_set x);
            children_placed = λ x. ground (arith, v.children_moved x, r.children_same x);
            parent_placed = λ x. ground (arith, v.parent_moved x, r.parent_same x);
            written = old;
            others = others;
            rest_same = refl;
          }),
        )
