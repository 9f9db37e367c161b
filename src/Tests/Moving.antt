-- ===== src/Tests/Moving.antt =====
-- Renames on the sample mount, with the library of Tests/Refining.
use ical_fs.Base.{◌≡◌, refl, codes, Bytes, none, some, [], ◌∷◌, arith, ok}
use ical_fs.Path.{append_path, split_path}
use ical_fs.Tree.{load}
use ical_fs.Store.{AgendaEntry, Node, is_root_node}
use ical_fs.Lookup.Stable.{Found}
use ical_fs.Entry.{get_icalcomponent_from_node}
use ical_fs.Entry.Stored.{Stored, get_icalcomponent_from_node-Stored}
use ical_fs.Handlers.Nodes.Renaming.{IsRenamable, NotAbove}
use ical_fs.Tests.Sample.{mount, heap-IsTree}
use ical_fs.Tests.Refining.{known_component, identified, text_uid, root-Found, c_free, work-Stored}

-- The entry 3 is moved below the entry 2.
b-Found : Found mount (codes "/work/b.md") 3
unfolding split_path
b-Found = record {
  is_tree = heap-IsTree;
  root_live = refl;
  short = ground arith;
  chain = (1, refl, refl, (3, refl, refl, refl));
}

abbrev b_entry : AgendaEntry
b_entry = record { filename = codes "b.md"; filename_vdir = codes "b.ics" }

abbrev b_node : Node
b_node = record { content = some b_entry; parent = some 1; children = []; child_capacity = 0 }

b-Stored : Stored mount 3 b_node b_entry (codes "text")
b-Stored = record { cell = refl; content = refl; file = refl }

work_read : get_icalcomponent_from_node ⦃I = identified⦄ 1 mount ≡ ok (some known_component) mount
work_read = get_icalcomponent_from_node-Stored ⦃I = identified⦄ mount 1 work-Stored

-- The entry 3 is moved to the top level.
root_read : get_icalcomponent_from_node ⦃I = identified⦄ 0 mount ≡ ok none mount
unfolding get_icalcomponent_from_node load is_root_node
root_read = refl

leaf-NotAbove_root : NotAbove mount.heap 3 0
leaf-NotAbove_root [] e = ground arith
leaf-NotAbove_root (i ∷ ns) (c, m, n, rest) = ground arith

pub b-IsRenamable_top :
    IsRenamable ⦃I = identified⦄
      (codes "/work/b.md")
      []
      (codes "c.md")
      0
      3
      1
      mount
      b_node
      b_entry
      (codes "text")
      known_component
      none
      (some known_component)
unfolding append_path split_path
b-IsRenamable_top = record {
  is_name = ((λ e. cc), ground arith);
  parent_found = root-Found;
  child_found = b-Found;
  short = ground arith;
  free = c_free;
  apart = leaf-NotAbove_root;
  stored = b-Stored;
  parsed = refl;
  parent_read = root_read;
  top = λ e. refl;
  up = refl;
  old_read = work_read;
  old_known = (codes "text", text_uid);
  parent_known = tt;
  may = refl;
}

abbrev target : Bytes
target = append_path (codes "/work/a.md") (codes "c.md")
