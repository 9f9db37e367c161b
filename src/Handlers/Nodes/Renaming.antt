-- ===== src/Handlers/Nodes/Renaming.antt =====
-- `fuse_rename` to a path that leads nowhere yet, at the top level or below a node with an entry.
use ical_fs.Base.{
  ◌≡◌, refl, ap, ◌∙◌, ◌≢◌, ◌≤◌, inl, inr, Bytes, true, Option, none, some, List, [], ◌∷◌, arith,
  length, ok, Returns, Returns-mono, and_then, ◌>>=◌, ◌==◌, ==_refl, Bool-cases,
}
use ical_fs.Path.{append_path, split_path}
use ical_fs.Path.Names.{directory, append_path_parts}
use ical_fs.Path.Segments.{IsName, split_path_below}
use ical_fs.Tree.{Ptr, Heap}
use ical_fs.Tree.Links.{has, without, children_of}
use ical_fs.Tree.Moves.{has-append, has-without}
use ical_fs.HashMap.{HashMap}
use ical_fs.Store.{AgendaEntry, Node, Mount}
use ical_fs.Store.Siblings.{IsTree, listed-without}
use ical_fs.Lookup.{max_segments, get_node_by_path}
use ical_fs.Lookup.Chains.{Chain}
use ical_fs.Lookup.Edits.{Chain-live}
use ical_fs.Lookup.Stable.{Found, get_node_by_path-Found}
use ical_fs.Lookup.Namespace.{Chain-snoc, free_name}
use ical_fs.Ical.{Ical}
use ical_fs.Entry.{get_icalcomponent_from_node}
use ical_fs.Entry.Stored.{Stored, file_of}
use ical_fs.Agenda.Rename.{do_agenda_rename, rename_node, asserted}
use ical_fs.Agenda.Rename.Moving.{HasUid, moved_text}
use ical_fs.Agenda.Rename.Placing.{Placed, Placed-IsTree}
use ical_fs.Agenda.Rename.Finishing.{rename_node-Placed}
use ical_fs.Status.{done}
use ical_fs.Handlers.Nodes.{fuse_rename}

-- The node is not above the other, nor the same.
abbrev pub NotAbove : Heap AgendaEntry → Ptr → Ptr → Type 0
NotAbove h child parent = (names : List Bytes) → Chain h child names parent → ⊥

module _ {M : HashMap} (name : Bytes) (parent child : Ptr) (s s' : Mount M) {file text : Bytes}
    (p : Placed name parent child file text s s') (t : IsTree s.heap) where
  -- The way to the new parent does not lead over the node, so it is still there.
  Chain-Placed :
      (from : Ptr) (names : List Bytes)
      → NotAbove s.heap child parent
      → Chain s.heap from names parent
      → Chain s'.heap from names parent
  Chain-Placed from [] apart c = c
  Chain-Placed from (i ∷ names) apart (c, m, n, rest) =
      let other : c ≢ child = λ e. apart names (rw e at rest) in
      let there = has-without c child (children_of s.heap from) (t.linked.distinct from) in
      (
        c,
        elim (Bool-cases (from == parent)) [
          | inl here ↦
              rw
                (
                  p.children_placed from,
                  here,
                  has-append c (without child (children_of s.heap from)) (child ∷ []),
                )
                (ground arith)
          | inr away ↦ rw (p.children_placed from, away) (ground arith)
        ],
        p.names_same c other ∙ n,
        Chain-Placed c names apart rest,
      )

  placed_below : has child (children_of s'.heap parent) ≡ true
  placed_below =
      rw
        (
          p.children_placed parent,
          ==_refl parent,
          has-append child (without child (children_of s.heap parent)) (child ∷ []),
        )
        (ground (arith, ==_refl child))

-- The old path leads to a stored entry below a node, and the new one, which is not taken, would stand
-- below the root, or below an entry that is not the old one nor below it; the components can be read,
-- and the file written; and the parents that have a component have a uid.
pub record IsRenamable ⦃I : Ical⦄ {M : HashMap} (old p name : Bytes) (parent child old_parent : Ptr)
    (s : Mount M) (n : Node) (e : AgendaEntry) (text : Bytes) (c : I.Component)
    (parent_ics old_ics : Option I.Component) : Type 0 where
  pub is_name : IsName name
  pub parent_found : Found s (directory p) parent
  pub child_found : Found s old child
  pub short : length (split_path (append_path p name)) ≤ max_segments
  pub free : get_node_by_path (append_path p name) s ≡ ok none s
  pub apart : NotAbove s.heap child parent
  pub stored : Stored s child n e text
  pub parsed : I.from_string text ≡ some c
  pub parent_read : get_icalcomponent_from_node parent s ≡ ok parent_ics s
  pub top : parent_ics ≡ none → parent ≡ s.fuse_root
  pub up : n.parent ≡ some old_parent
  pub old_read : get_icalcomponent_from_node old_parent s ≡ ok old_ics s
  pub old_known : HasUid old_ics
  pub parent_known : HasUid parent_ics
  pub may : s.can_write (file_of s e) ≡ true

module _ ⦃I : Ical⦄ {M : HashMap} (old p name : Bytes) (parent child old_parent : Ptr) (s : Mount M)
    {n : Node} {e : AgendaEntry} {text : Bytes} {c : I.Component}
    {parent_ics old_ics : Option I.Component}
    (h : IsRenamable old p name parent child old_parent s n e text c parent_ics old_ics) where
  fuse_rename-renames : fuse_rename old (append_path p name) s ≡ rename_node name parent child s
  unfolding fuse_rename do_agenda_rename
  fuse_rename-renames =
      let (last, up) = append_path_parts p name h.is_name.1 in
      rw
        (
          h.free,
          and_then,
          ◌>>=◌,
          do_agenda_rename,
          up,
          get_node_by_path-Found s (directory p) parent h.parent_found,
          get_node_by_path-Found s old child h.child_found,
          asserted,
          last,
        )
        refl

  pub fuse_rename-Placed :
      Returns
        (λ r s'.
          (r ≡ done 0)
          × Placed name parent child
              (file_of s e)
              (moved_text s.clock name old_ics parent_ics c)
              s
              s'
          × IsTree s'.heap
          × (get_node_by_path (append_path p name) s' ≡ ok (some child) s'))
        (fuse_rename old (append_path p name) s)
  fuse_rename-Placed =
      let t = h.parent_found.is_tree in
      let split = split_path_below p name h.is_name in
      let free =
        free_name s (append_path p name) parent (split_path (directory p)) name t
          h.parent_found.root_live h.parent_found.chain split h.short h.free in
      let alive =
        Chain-live s.heap t.linked s.fuse_root (split_path (directory p)) parent
          h.parent_found.root_live h.parent_found.chain in
      rw fuse_rename-renames (
        Returns-mono _ _ (rename_node name parent child s)
          (rename_node-Placed name parent child old_parent s c parent_ics old_ics t.linked alive
            h.top h.stored h.parsed h.parent_read h.up h.old_read h.old_known h.may)
          λ r s' (z, placed).
            let u =
              Placed-IsTree name parent child s s' placed t
                (listed-without name s.heap child (children_of s.heap parent) free) in
            let root : s'.fuse_root ≡ s.fuse_root =
              ap (λ (x : Mount M). x.fuse_root) placed.rest_same in
            let f : Found s' (append_path p name) child = record {
              is_tree = u;
              root_live = rw root (placed.live_same s.fuse_root ∙ h.parent_found.root_live);
              short = h.short;
              chain =
                  rw (root, split)
                    (Chain-snoc s'.heap s.fuse_root (split_path (directory p)) name parent child
                      (Chain-Placed name parent child s s' placed t s.fuse_root
                        (split_path (directory p)) h.apart h.parent_found.chain)
                      (placed_below name parent child s s' placed t) placed.renamed_to);
            } in
            (z, placed, u, get_node_by_path-Found s' (append_path p name) child f))
