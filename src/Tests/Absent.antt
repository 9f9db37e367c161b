-- ===== src/Tests/Absent.antt =====
-- A path of the sample mount that leads nowhere.
use ical_fs.Base.{refl, codes, arith, str_eq}
use ical_fs.Path.{split_path}
use ical_fs.Tree.{Ptr}
use ical_fs.Lookup.Chains.{Chain}
use ical_fs.Handlers.Missing.{Missing, ReportsMissing, handlers-ReportsMissing}
use ical_fs.Tests.Calendar.{library}
use ical_fs.Tests.Sample.{heap, heap-IsTree, mount}

leads_nowhere : (q : Ptr) → Chain heap 0 (split_path (codes "/z.md")) q → ⊥
unfolding split_path str_eq
leads_nowhere q (c, m, n, e) = ground arith

z-Missing : Missing (codes "/z.md") mount
unfolding split_path
z-Missing = record {
  is_tree = heap-IsTree;
  root_live = refl;
  short = ground arith;
  nowhere = leads_nowhere;
}

handlers-ReportsMissing_example : ReportsMissing ⦃I = library⦄ (codes "/z.md") mount
handlers-ReportsMissing_example =
    handlers-ReportsMissing ⦃I = library⦄ (codes "/z.md") mount z-Missing
