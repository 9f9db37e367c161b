-- ===== src/Entry/Stored.antt =====
-- A node whose entry has a file: what reading and writing its component do.
use ical_fs.Base.{◌≡◌, Bytes, str_eq, str_eq_refl, some, arith, ok, if◌then◌else◌}
use ical_fs.Path.{append_path}
use ical_fs.Tree.{Ptr, TreeNode, Heap, load}
use ical_fs.HashMap.{HashMap}
use ical_fs.Store.{AgendaEntry, Node, Mount, get_entry, get_vdir_filepath, is_root_node}
use ical_fs.Ical.{Ical}
use ical_fs.Entry.{
  write_to_file, prepared, parse_ics_file, get_icalcomponent_from_node, write_ical_file,
}
use ical_fs.Status.{done, error, eio}

module _ {M : HashMap} where
  abbrev pub file_of : Mount M → AgendaEntry → Bytes
  file_of s e = append_path s.vdir e.filename_vdir

  -- `node` has the entry `e`, and the file of that entry has the text.
  pub record Stored (s : Mount M) (node : Ptr) (n : Node) (e : AgendaEntry) (text : Bytes)
      : Type 0 where
    pub cell : s.heap.cell node ≡ some n
    pub content : n.content ≡ some e
    pub file : s.files (file_of s e) ≡ some text

  -- The mount with the text in the file.
  abbrev pub with_file : Bytes → Bytes → Mount M → Mount M
  with_file path text s = record s { files = λ p. if str_eq p path then some text else s.files p }

pub load-live :
    {D : Type 0} (p : Ptr) (h : Heap D) {n : TreeNode D} → h.cell p ≡ some n → load p h ≡ ok n h
unfolding load
load-live p h e = ground arith

module _ ⦃I : Ical⦄ {M : HashMap} (s : Mount M) (node : Ptr) where
  -- A write needs the entry of the node only, not its file.
  pub write_ical_file-node :
      {n : Node} {e : AgendaEntry} (ic : I.Component)
      → s.heap.cell node ≡ some n
      → n.content ≡ some e
      → write_ical_file node ic s ≡ (
          if s.can_write (file_of s e)
          then ok (done 0) (with_file (file_of s e) (I.as_ical_string (prepared s.clock ic)) s)
          else ok (error eio) s)
  unfolding write_ical_file write_to_file get_vdir_filepath get_entry load
  write_ical_file-node ic cell content = ground arith

module _ ⦃I : Ical⦄ {M : HashMap} (s : Mount M) (node : Ptr) {n : Node} {e : AgendaEntry}
    {text : Bytes} where
  pub get_icalcomponent_from_node-Stored :
      Stored s node n e text → get_icalcomponent_from_node node s ≡ ok (I.from_string text) s
  unfolding get_icalcomponent_from_node parse_ics_file get_vdir_filepath get_entry load is_root_node
  get_icalcomponent_from_node-Stored t = ground (arith, t.cell, t.content, t.file)

  pub write_ical_file-Stored :
      (ic : I.Component)
      → Stored s node n e text
      → write_ical_file node ic s ≡ (
          if s.can_write (file_of s e)
          then ok (done 0) (with_file (file_of s e) (I.as_ical_string (prepared s.clock ic)) s)
          else ok (error eio) s)
  write_ical_file-Stored ic t = write_ical_file-node s node ic t.cell t.content

  pub with_file-Stored :
      (new : Bytes) → Stored s node n e text → Stored (with_file (file_of s e) new s) node n e new
  with_file-Stored new t = record {
    cell = t.cell;
    content = t.content;
    file = ground (arith, str_eq_refl (file_of s e));
  }
