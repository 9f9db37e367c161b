-- ===== src/Tests/Tracing.antt =====
-- Sequences of requests, on the sample mount.
use ical_fs.Base.{codes, Run, ok, fault}
use ical_fs.Store.{Mount}
use ical_fs.Handlers.Nodes.{fuse_unlink}
use ical_fs.Tests.Calendar.{library}
use ical_fs.Tests.Sample.{table, mount}

-- What a run without a fault returns, and where it ends.
abbrev result_of : {S A : Type 0} → A → Run S A → A
result_of a (ok b s) = b
result_of a (fault e) = a

abbrev state_of : {S A : Type 0} → S → Run S A → S
state_of s (ok a t) = t
state_of s (fault e) = s

abbrev after : Mount table
after = state_of mount (fuse_unlink ⦃I = library⦄ (codes "/work/a.md") mount)
