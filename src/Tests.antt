-- ===== src/Tests.antt =====
-- The theorems at concrete inputs: a calendar library that meets the laws of the interface, and a
-- small mounted tree.
mod Calendar
mod Sample
mod Paths
mod Trees
mod Entries
mod Handling
mod Refining
mod Moving
mod Table
mod Texts
mod Attributes
mod Memory
mod Tracing
mod Loading
mod Watching
mod Finishing
mod Absent
mod Allocating
