-- ===== src/Handlers/Writable.antt =====
-- A path to an entry whose file can be read and written.
use ical_fs.Base.{◌≡◌, Bytes, true, some}
use ical_fs.Tree.{Ptr}
use ical_fs.HashMap.{HashMap}
use ical_fs.Store.{AgendaEntry, Node, Mount}
use ical_fs.Lookup.Stable.{Found}
use ical_fs.Ical.{Ical}
use ical_fs.Entry.Stored.{Stored, file_of, with_file, with_file-Stored}

-- A path that leads in a tree to an entry, whose file can be written and is parsed as a component.
pub record Writable ⦃I : Ical⦄ {M : HashMap} (path : Bytes) (node : Ptr) (s : Mount M) (n : Node)
    (e : AgendaEntry) (c : I.Component) : Type 0 where
  pub text : Bytes
  pub found : Found s path node
  pub stored : Stored s node n e text
  pub parsed : I.from_string text ≡ some c
  pub may : s.can_write (file_of s e) ≡ true

module _ ⦃I : Ical⦄ {M : HashMap} (path : Bytes) (node : Ptr) {n : Node} {e : AgendaEntry} where
  -- The file holds another component.
  pub Writable-with_file :
      (s : Mount M) (new : Bytes) (c c' : I.Component)
      → Writable path node s n e c
      → I.from_string new ≡ some c'
      → Writable path node (with_file (file_of s e) new s) n e c'
  Writable-with_file s new c c' w again = record {
    text = new;
    found = record {
      is_tree = w.found.is_tree;
      root_live = w.found.root_live;
      short = w.found.short;
      chain = w.found.chain;
    };
    stored = with_file-Stored s node new w.stored;
    parsed = again;
    may = w.may;
  }
