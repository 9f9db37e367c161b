-- ===== src/Tests/Finishing.antt =====
-- The program ends on the sample mount.
use ical_fs.Base.{ℕ, refl, arith, ◌==◌, if◌then◌else◌, Returns}
use ical_fs.Tree.{Ptr}
use ical_fs.Tree.Freeing.{Under, HasDepth, Freed}
use ical_fs.Handlers.Start.{clean_up}
use ical_fs.Handlers.Start.Ending.{clean_up-Freed}
use ical_fs.Tests.Sample.{heap, heap-IsTree, mount}

abbrev pub depth : Ptr → ℕ
depth p = if p == 0 then 0 else if p == 1 then 1 else 2

pub heap-HasDepth : HasDepth heap depth
heap-HasDepth = record { deeper = λ p c m. ground arith }

clean_up-Freed_example :
    Returns (λ _ s'. Freed (Under mount.heap mount.fuse_root) mount.heap s'.heap) (clean_up mount)
clean_up-Freed_example =
    clean_up-Freed mount depth heap-IsTree.linked heap-HasDepth (λ x l. ground arith) refl
