-- ===== src/Lib.antt =====
-- agendafs mounts a directory of iCalendar files (the vdir) as a tree of notes: each `.ics` file is a
-- node, and a RELATED-TO property to a parent makes it a child of another. The handlers of main.c
-- look a path up in the tree, read the entry's component from its file, change it and write it back.
--
-- The parts, from below:
--   * Base: lists and C strings (lists of bytes without the terminator), and commands `Cmd S A`, code
--     that reads and writes a state and may end in a fault (a failed assert, a null or dangling
--     pointer, an access out of bounds).
--   * Allocation (util.c): the sizes of arrays.
--   * Path (path.c): file names, extensions, parents and segments of paths.
--   * Tree (tree.c): nodes with parent links and child arrays in a heap of addresses. `create_tree_node`
--     takes the next address, which is fresh. `child_capacity` follows the growth of the array.
--   * HashMap (hashmap.h): the table, a parameter, with what its callers rely on.
--   * Store (fuse_node_store.c, agenda_entry.c): `Mount` is the globals `fuse_root`, `entries_vdir`,
--     `VDIR` and `FILE_EXTENSION` with the heap, and what the program meets of the system: the texts
--     of the files, which of them can be written and removed, the clock and the generated uuids.
--   * Ical (ical_extra.c): `Ical` is the interface of libical, a parameter, and `IsLawfulIcal` its laws;
--     Ical/Codes has the texts of classes and states, Ical/Properties the X- and RELATED-TO properties.
--   * Lookup (fuse_node.c): `get_node_by_path`, `get_node_by_uuid`. Lookup/Spec has the abstract file
--     system, a table from lists of names to nodes with the operations `link`, `unlink` and `move`
--     (Lookup/Relocating), and `Implements`, what it means that a mount implements it.
--   * Entry (fuse_node.c): reading and writing a node's component, its fields, its name.
--   * Agenda (fuse_node.c): creating, deleting and renaming entries, and Agenda/Sync, loading the tree
--     and following changes of the vdir. Under it, Reading and Loading are about the first loop of
--     `load_root_node_tree`, Ready is the state between changes, Marking and Ensuring are about the
--     mark of a directory, Lowering, Placing and Settling about the second loop, Rooted and Mounting
--     about both, and Upserting and Updating about one changed file.
--   * Handlers (main.c): the operations of `struct fuse_operations`, and `handle_vdir_event`.
--     Handlers/Nodes/Refining and Handlers/Nodes/Relocating relate them to the abstract file system,
--     and Handlers/Nodes/Traces does so for sequences of requests.
--     Handlers/Attributes has the extended attributes, Handlers/Missing the errors of paths that lead
--     nowhere. Handlers/Start is the start of the program, where `Surroundings` is what it meets of
--     the system, and its end.
--   * Arena (arena.c): the blocks of an arena in a memory of objects, what allocates in it, and
--     `free_all`.
--   * Tests: the theorems at concrete inputs.
--
-- A heap is called a tree below where it is linked, each child list and parent link matching, and
-- siblings have different names (IsTree). That no node is below itself is said apart, by NoLoop of
-- Store/Acyclic, and lookups do not need it.
--
-- A handler holds the lock from its start to its end, so each is one step. A status is `done n` for a
-- result n and `error e` for a negative errno; where the result of the C code is a `size_t` that the
-- caller compares, the comparison is written as it works on that type. A handler reads the clock
-- once.
--
-- Fuel: `add_fuse_child` gets two rounds more than the parent has children, which is enough since the
-- numbered names differ. `free_tree` and `calculate_node_size` get one more than the number of
-- addresses used, which is enough where no node is below itself. The loop of `free_all` gets one more
-- than the number of addresses used, and an arena has no more blocks than that.
--
-- Not modelled: memory that runs out in `xmalloc`, `xcalloc` and `xstrdup`, on which the program
-- exits; the memory of the values in the parts other than Tree and Arena, which are copied and
-- dropped; the logging; the threads and the parsing of the options in main.c; the table of hashmap.c
-- and libical, which are the parameters above.
pub mod Base
pub mod Path
pub mod Tree
pub mod HashMap
pub mod Store
pub mod Lookup
pub mod Ical
pub mod Status
pub mod Entry
pub mod Agenda
pub mod Handlers
pub mod Allocation
pub mod Arena
pub mod Tests
