-- ===== src/Agenda/Sync/Rooted.antt =====
-- The mount that `load_root_node_tree` starts from.
use ical_fs.Base.{suc, ◌≡◌, Bytes, true, false, none, some, [], arith}
use ical_fs.Tree.{Ptr, write}
use ical_fs.Tree.Links.{live, content_of, parent_of}
use ical_fs.HashMap.{HashMap, IsLawful}
use ical_fs.Store.{Mount}
use ical_fs.Store.Siblings.{IsTree}
use ical_fs.Store.Index.{IsIndexed}
use ical_fs.Ical.{Ical}
use ical_fs.Agenda.Sync.Reading.{read_entry, read_entry_anywhere}

module _ {M : HashMap} where
  -- The mount with a root and nothing else.
  unfoldable pub rooted : Mount M → Mount M
  rooted s = record s {
    heap =
        record (write s.heap.next
          (some (record { content = none; parent = none; children = []; child_capacity = 0 }))
          s.heap) { next = suc s.heap.next };
    fuse_root = s.heap.next;
    entries_vdir = M.empty;
  }

  -- No node has been made.
  abbrev pub Empty : Mount M → Type 0
  Empty s = (x : Ptr) → live s.heap x ≡ false

  pub rooted-IsTree : (s : Mount M) → Empty s → IsTree (rooted s).heap
  unfolding rooted write
  rooted-IsTree s none_live = record {
    linked = record {
      links = λ p c. ground (arith, none_live p, none_live c);
      distinct = λ p. ground (arith, none_live p);
      fits = λ p. ground (arith, none_live p);
      unused = λ p far. ground (arith, none_live p);
    };
    unique = λ p. ground (arith, none_live p);
  }

  pub rooted-blank :
      (s : Mount M)
      → Empty s
      → (x : Ptr) → (content_of (rooted s).heap x ≡ none) × (parent_of (rooted s).heap x ≡ none)
  unfolding rooted write
  rooted-blank s none_live x = ground (arith, none_live x)

  pub rooted-IsIndexed : (s : Mount M) → IsLawful M → Empty s → IsIndexed (rooted s)
  unfolding rooted
  rooted-IsIndexed s L none_live = record {
    sound = λ k p found. cc (L.get-empty k);
    complete = λ p e c. cc ((rooted-blank s none_live p).0);
  }

  pub rooted-unlisted :
      IsLawful M → (s : Mount M) (name : Bytes) → M.get (rooted s).entries_vdir name ≡ none
  unfolding rooted
  rooted-unlisted L s name = L.get-empty name

  pub rooted_live : (s : Mount M) → live (rooted s).heap (rooted s).fuse_root ≡ true
  unfolding rooted write
  rooted_live s = ground arith

module _ ⦃I : Ical⦄ {M : HashMap} (s : Mount M) (name : Bytes) where
  -- What a file is read as, and the component in it, do not depend on the nodes.
  pub read_entry-rooted : read_entry (rooted s) name ≡ read_entry s name
  unfolding rooted
  read_entry-rooted = read_entry_anywhere s (rooted s).heap s.heap.next M.empty name
