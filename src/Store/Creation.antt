-- ===== src/Store/Creation.antt =====
-- `create_fuse_node`: a node at a fresh address, with its entry, in the index.
use ical_fs.Base.{suc, ◌≡◌, refl, ◌≢◌, true, false, none, some, List, [], ◌∷◌, arith, ok}
use ical_fs.Tree.{Ptr, Heap, write, create_tree_node}
use ical_fs.Tree.Links.{has, live, children_of, parent_of, content_of}
use ical_fs.Tree.Moves.{Linked}
use ical_fs.HashMap.{HashMap}
use ical_fs.Store.{AgendaEntry, Mount, create_fuse_node}
use ical_fs.Store.Names.{names_of}
use ical_fs.Store.Siblings.{IsTree}

-- `node` is a new node with the entry, without links; nothing else has changed.
pub record Fresh (node : Ptr) (entry : AgendaEntry) (h h' : Heap AgendaEntry) : Type 0 where
  pub was_dead : live h node ≡ false
  pub now_live : live h' node ≡ true
  pub content_set : content_of h' node ≡ some entry
  pub cell_same : (x : Ptr) → x ≢ node → h'.cell x ≡ h.cell x
  pub content_same : (x : Ptr) → x ≢ node → content_of h' x ≡ content_of h x
  pub children_same : (x : Ptr) → children_of h' x ≡ children_of h x
  pub parent_same : (x : Ptr) → parent_of h' x ≡ parent_of h x
  pub names_same : (cs : List Ptr) → has node cs ≡ false → names_of h' cs ≡ names_of h cs
  pub is_tree : IsTree h'

module _ (entry : AgendaEntry) (h : Heap AgendaEntry) where
  -- The heap with the new node.
  pub grown : Heap AgendaEntry
  grown =
      record (write h.next
        (some (record { content = some entry; parent = none; children = []; child_capacity = 0 }))
        h) { next = suc h.next }

  grown-Linked : Linked h → Linked grown
  unfolding grown write
  grown-Linked l = record {
    links = λ p c.
        ground (arith, l.links p c, l.links h.next c, l.unused h.next (omega arith), l.unused p);
    distinct = λ p. ground (arith, l.distinct p);
    fits = λ p. ground (arith, l.fits p);
    unused = λ p far. ground (arith, l.unused p);
  }

  names_of-grown : (cs : List Ptr) → has h.next cs ≡ false → names_of grown cs ≡ names_of h cs
  unfolding grown write
  names_of-grown [] out = refl
  names_of-grown (d ∷ cs) out = ground (arith, names_of-grown cs)

  pub grown-Fresh : IsTree h → Fresh h.next entry h grown
  unfolding grown write
  grown-Fresh t =
      let l = t.linked in
      let dead = l.unused h.next (omega arith) in
      let same : (x : Ptr) → children_of grown x ≡ children_of h x = λ x. ground (arith, dead) in
      record {
        was_dead = dead;
        now_live = ground arith;
        content_set = ground arith;
        cell_same = λ x ne. ground arith;
        content_same = λ x ne. ground arith;
        children_same = same;
        parent_same = λ x. ground (arith, dead);
        names_same = names_of-grown;
        is_tree = record {
          linked = grown-Linked l;
          unique = λ p.
              rw (same p, names_of-grown (children_of h p) (ground (arith, l.links p h.next, dead)))
                (t.unique p);
        };
      }

pub create_fuse_node-grown :
    {M : HashMap} (entry : AgendaEntry) (s : Mount M)
    → create_fuse_node entry s
      ≡ ok s.heap.next (record s {
        heap = grown entry s.heap;
        entries_vdir = M.insert s.entries_vdir entry.filename_vdir s.heap.next;
      })
unfolding create_fuse_node create_tree_node grown
create_fuse_node-grown entry s = refl

-- The new node's cell.
pub cell_of-grown :
    (entry : AgendaEntry) (h : Heap AgendaEntry)
    → (grown entry h).cell h.next
      ≡ some (record { content = some entry; parent = none; children = []; child_capacity = 0 })
unfolding grown write
cell_of-grown entry h = ground arith
