-- ===== src/Handlers/Start/Ending.antt =====
-- The end of main.c: what is freed.
use ical_fs.Base.{ℕ, suc, ◌≤◌, ◌≡◌, true, arith, Returns, Returns-mono}
use ical_fs.Tree.{Ptr, free_tree}
use ical_fs.Tree.Links.{live}
use ical_fs.Tree.Moves.{Linked}
use ical_fs.Tree.Freeing.{Under, HasDepth, Freed, free_tree-Freed}
use ical_fs.HashMap.{HashMap}
use ical_fs.Store.{Mount, on_heap}
use ical_fs.Store.Children.{Returns-on_heap}
use ical_fs.Handlers.Start.{clean_up}

module _ {M : HashMap} (s : Mount M) where
  -- In a linked heap with a live root, in which each node has a depth, one more than its parent's
  -- and at most the number of addresses given, the program ends without a fault: no node is freed
  -- twice or read after it is gone, those at and below the root are gone, and no other node has
  -- changed.
  pub clean_up-Freed :
      (depth : Ptr → ℕ)
      → Linked s.heap
      → HasDepth s.heap depth
      → ((x : Ptr) → live s.heap x ≡ true → depth x ≤ s.heap.next)
      → live s.heap s.fuse_root ≡ true
      → Returns (λ _ s'. Freed (Under s.heap s.fuse_root) s.heap s'.heap) (clean_up s)
  unfolding clean_up
  clean_up-Freed depth l a bounded root =
      let s0 : Mount M = record s { entries_vdir = M.empty } in
      Returns-mono _ _ (on_heap (free_tree (suc s.heap.next) s.fuse_root) s0)
        (Returns-on_heap _ (free_tree (suc s.heap.next) s.fuse_root) s0 (
          free_tree-Freed s.heap l depth a s.heap.next bounded s.fuse_root (suc s.heap.next) root
            (omega arith)))
        λ _ s' (f, same). f
