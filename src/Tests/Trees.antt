-- ===== src/Tests/Trees.antt =====
-- The tree and its lookup, on the sample.
use ical_fs.Base.{
  ℕ, ◌+◌, ◌≤◌, ◌≢◌, ◌↔◌, length, ◌≡◌, refl, codes, Option, [], ◌∷◌, arith, Returns, ok,
}
use ical_fs.Path.{split_path}
use ical_fs.Tree.{move_node}
use ical_fs.Tree.Moves.{Linked, Moved, move_node-Linked}
use ical_fs.Store.Extension.{set_file_extension-bounded}
use ical_fs.Store.{set_file_extension, buffer_size, add_fuse_child, move_fuse_node, pick_filename}
use ical_fs.Store.Names.{Picked, pick_filename_total}
use ical_fs.Store.Children.{Joined}
use ical_fs.Store.Relocation.{Relocated, IsTree-UniqueBut}
use ical_fs.Store.Acyclic.{NoLoop, add_fuse_child-NoLoop, move_fuse_node-NoLoop}
use ical_fs.Tree.{Ptr}
use ical_fs.Tree.Freeing.{Under, itself, below}
use ical_fs.Tests.Finishing.{depth, heap-HasDepth}
use ical_fs.Lookup.{get_node_by_path}
use ical_fs.Lookup.Chains.{Leads, get_node_by_path-Leads}
use ical_fs.Tests.Sample.{heap, mount, heap-Linked, heap-IsTree}

move_node-Linked_example :
    Returns (λ r h'. (r ≡ 0) × Linked h' × Moved 0 2 heap h') (move_node 0 2 heap)
move_node-Linked_example = move_node-Linked 0 2 heap heap-Linked refl refl

pick_filename_total_example :
    Picked mount
      (codes "a.md")
      (codes "a.md")
      (2 ∷ 3 ∷ [])
      (pick_filename 4 (codes "a.md") (codes "a.md") 1 (2 ∷ 3 ∷ []) mount)
pick_filename_total_example =
    pick_filename_total mount (codes "a.md") (2 ∷ 3 ∷ []) (refl, (refl, tt))

-- A node below another is at least as deep.
Under-depth : {a b : Ptr} → Under heap a b → depth a ≤ depth b
Under-depth itself = omega arith
Under-depth {a} {b} (below c m u) =
    let further = Under-depth u in let step = heap-HasDepth.deeper a c m in omega arith

heap-NoLoop : NoLoop heap
heap-NoLoop p c m u =
    let further = Under-depth u in let step = heap-HasDepth.deeper p c m in absurd (omega arith)

move_fuse_node-NoLoop_example :
    Returns (λ r s'. (r ≡ 0) × NoLoop s'.heap × Relocated 0 2 mount s') (move_fuse_node 0 2 mount)
move_fuse_node-NoLoop_example =
    move_fuse_node-NoLoop 0 2 mount heap-Linked (IsTree-UniqueBut 2 heap heap-IsTree) heap-NoLoop
      (λ u. absurd (ground (arith, Under-depth u))) refl refl

add_fuse_child-NoLoop_example :
    Returns (λ r s'. (r ≡ 0) × NoLoop s'.heap × Joined 1 4 mount s') (add_fuse_child 1 4 mount)
add_fuse_child-NoLoop_example =
    add_fuse_child-NoLoop 1 4 mount heap-IsTree heap-NoLoop
      (λ u. absurd (ground (arith, Under-depth u))) refl refl refl

get_node_by_path-Leads_example :
    (o : Option _) × (get_node_by_path (codes "/work/a.md") mount ≡ ok o mount)
    × Leads mount 0 (split_path (codes "/work/a.md")) o
get_node_by_path-Leads_example =
    get_node_by_path-Leads mount (codes "/work/a.md") heap-IsTree refl
      (unfold split_path in ground arith)

set_file_extension-bounded_example :
    Returns
      (λ r s'.
        (length s'.file_extension + 1 ≤ buffer_size)
        × ((r ≡ 1) ↔ (◌≡◌ {A = ℕ} b'm' b'.'))
        × ((r ≡ 2) ↔ ((◌≢◌ {A = ℕ} b'm' b'.') × (buffer_size + 1 ≤ length (codes "md"))))
        × (r ≢ 0 → s' ≡ mount))
      (set_file_extension (codes "md") mount)
set_file_extension-bounded_example =
    set_file_extension-bounded b'm' (codes "d") mount (ground arith)
