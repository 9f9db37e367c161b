-- ===== src/Agenda/Sync/Updating.antt =====
-- `update_or_create_fuse_entry_from_vdir` as a whole.
use ical_fs.Base.{
  ◌≡◌, refl, sym, ap, ◌∙◌, inl, inr, Bytes, codes, str_eq, str_eq_iff, true, none, some, ◌++◌,
  arith, ◌==◌, Lacks, Option-cases, Bool-cases, ok, Returns, Returns-and_then, and_then, ◌>>=◌,
  if◌then◌else◌,
}
use ical_fs.Path.{get_filename}
use ical_fs.Tree.{Ptr}
use ical_fs.Tree.Links.{parent_of}
use ical_fs.HashMap.{HashMap, IsLawful}
use ical_fs.Store.{
  AgendaEntry, Mount, upsert_fuse_node, move_fuse_node, get_fuse_node_from_vdir_name,
}
use ical_fs.Store.Names.{file_in, vdir_name_of}
use ical_fs.Store.Relocation.{move_fuse_node-Relocated}
use ical_fs.Lookup.{get_node_by_uuid}
use ical_fs.Ical.{Ical}
use ical_fs.Agenda.Sync.{ensure_directory, update_or_create_fuse_entry_from_vdir}
use ical_fs.Agenda.Sync.Reading.{
  read_entry, read_entry-component, read_entry-filename_vdir, load_agenda_entry_from_ics_file-reads,
}
use ical_fs.Agenda.Sync.Marking.{KeepsParent}
use ical_fs.Agenda.Sync.Ready.{
  place_for, uid_in, component_in, parsed, named_parent, named_parent_of, parent_uid_of-named,
  Ready,
}
use ical_fs.Agenda.Sync.Ensuring.{Ensured, Ensured-refl, ensure_directory-Ensured}
use ical_fs.Agenda.Sync.Lowering.{Below, Relocated-Below, Below-Ready}
use ical_fs.Agenda.Sync.Upserting.{Upserted, upsert_fuse_node-Upserted}
use ical_fs.Status.{done, error, eio}

-- The file has a node, which is found under its name and stands below `parent`; the places of all
-- other nodes, and what the index has under other names, are as before, and all is ready again.
pub record Updated ⦃I : Ical⦄ {M : HashMap} (name : Bytes) (parent : Ptr) (s s' : Mount M)
    : Type 0 where
  pub ready : Ready s'
  pub node : Ptr
  pub named : vdir_name_of s'.heap node ≡ some name
  pub index_set :
      (k : Bytes)
      → M.get s'.entries_vdir k ≡ (if str_eq name k then some node else M.get s.entries_vdir k)
  pub parent_set :
      (x : Ptr) → parent_of s'.heap x ≡ (if x == node then some parent else parent_of s.heap x)
  pub rest_same : s' ≡ record s { heap = s'.heap; entries_vdir = s'.entries_vdir; files = s'.files }

module _ ⦃I : Ical⦄ {M : HashMap} (entry : AgendaEntry) (node parent : Ptr)
    (s s1 s2 s3 : Mount M) where
  -- The three steps, one after the other.
  steps-Updated :
      Upserted entry node s s1
      → Below parent node s1 s2
      → Ensured s2 s3
      → Updated entry.filename_vdir parent s s3
  steps-Updated u b d =
      let heap_same : s3.heap ≡ s2.heap = ap (λ (u : Mount M). u.heap) d.rest_same in
      let index_same : s3.entries_vdir ≡ s1.entries_vdir =
        ap (λ (u : Mount M). u.entries_vdir) d.rest_same
        ∙ ap (λ (u : Mount M). u.entries_vdir) b.rest_same in
      record {
        ready = d.ready;
        node = node;
        named =
            ap (λ h. vdir_name_of h node) heap_same
            ∙ (b.files_same node ∙ ap file_in u.content_set);
        index_set = λ k. ap (λ m. M.get m k) index_same ∙ u.index_set k;
        parent_set = λ x. rw (heap_same, b.parent_set x, u.parent_same x) refl;
        rest_same =
            d.rest_same
            ∙ (ap (λ (m : Mount M). record m { files = s3.files }) b.rest_same
                ∙ (ap (λ (m : Mount M). record m { heap = s2.heap; files = s3.files }) u.rest_same
                    ∙ (ap
                          (λ h. record s {
                            heap = h;
                            entries_vdir = s1.entries_vdir;
                            files = s3.files;
                          })
                          (sym heap_same)
                        ∙ ap (λ m. record s { heap = s3.heap; entries_vdir = m; files = s3.files })
                            (sym index_same))));
      }

-- A name that was in the index leads to the same node.
still_found :
    ⦃I : Ical⦄ {M : HashMap} (entry : AgendaEntry) (node parent : Ptr) (s s1 : Mount M) (k : Bytes)
    → Upserted entry node s s1
    → M.get s.entries_vdir k ≡ some parent
    → M.get s1.entries_vdir k ≡ some parent
still_found {M = M} entry node parent s s1 k u found =
    elim (Bool-cases (str_eq entry.filename_vdir k)) [
      | inl here ↦
          let own = (str_eq_iff entry.filename_vdir k).0 here in
          u.index_set k
          ∙ rw here (ap some (u.same_node parent (ap (M.get s.entries_vdir) own ∙ found)))
      | inr away ↦ u.index_set k ∙ rw away found
    ]

module _ ⦃I : Ical⦄ {M : HashMap} (s : Mount M) (name : Bytes) (filepath : Bytes)
    (plain : Lacks b'/' name) (file : get_filename filepath ≡ name) where
  -- A file that cannot be read as an entry changes nothing.
  pub update-unreadable :
      read_entry s name ≡ none → update_or_create_fuse_entry_from_vdir filepath s ≡ ok (error eio) s
  unfolding update_or_create_fuse_entry_from_vdir
  update-unreadable nothing =
      rw (file, ◌>>=◌, and_then, load_agenda_entry_from_ics_file-reads s name plain, nothing) refl

module _ ⦃I : Ical⦄ {M : HashMap} (L : IsLawful M) (K : KeepsParent) (s : Mount M) (name : Bytes)
    (filepath : Bytes) (r : Ready s) (may : (path : Bytes) → s.can_write path ≡ true)
    (plain : Lacks b'/' name) (file : get_filename filepath ≡ name) where
  -- The parent that the component of the file names.
  parent_wanted :
      (entry : AgendaEntry) (node : Ptr) (s1 : Mount M)
      → entry.filename_vdir ≡ name
      → Upserted entry node s s1
      → named_parent s1 node ≡ uid_in (component_in s (some name))
  parent_wanted entry node s1 own u =
      named_parent_of s1 node name (ap file_in u.content_set ∙ ap some own)
      ∙ ap (λ (m : Mount M). uid_in (component_in m (some name))) u.rest_same

  -- Let the mount be ready, the files all be writable, with a lawful table and given what KeepsParent
  -- relies on. A file, whose name has no slash, that is read as an entry, and names no parent or one
  -- whose file has a node, is taken up without a fault: its node, a new one if it had none, stands
  -- below the parent, or below the root, and no other node has moved.
  pub update_or_create_fuse_entry_from_vdir-Updated :
      (entry : AgendaEntry) (parent : Ptr)
      → read_entry s name ≡ some entry
      → place_for M s.fuse_root s.entries_vdir (uid_in (component_in s (some name))) ≡ some parent
      → Returns
          (λ status s'. (status ≡ done 0) × Updated name parent s s')
          (update_or_create_fuse_entry_from_vdir filepath s)
  unfolding update_or_create_fuse_entry_from_vdir get_node_by_uuid get_fuse_node_from_vdir_name
  update_or_create_fuse_entry_from_vdir-Updated entry parent read place =
      let own = read_entry-filename_vdir s name entry read in
      rw (file, ◌>>=◌, and_then, load_agenda_entry_from_ics_file-reads s name plain, read)
        (Returns-and_then _ _ (upsert_fuse_node entry s) _
          (upsert_fuse_node-Upserted L s r entry (
            let (text, c, there, parses) = read_entry-component s name entry read in
            (c, ap (λ n. component_in s (some n)) own ∙ (ap parsed there ∙ parses))))
          λ node s1 u.
            let wants = parent_wanted entry node s1 own u in
            let asked = parent_uid_of-named s1 node entry u.standing u.content_set in
            elim (Option-cases (uid_in (component_in s (some name)))) [
              | inl nothing ↦
                  rw (asked, wants, nothing)
                    (Returns-and_then _ _ (move_fuse_node s1.fuse_root node s1) (λ _. ok (done 0))
                      (move_fuse_node-Relocated s1.fuse_root node s1 u.linked u.unique_but
                        u.standing.root_live u.content_set)
                      λ _ s2 (z, m).
                        let b = Relocated-Below s1.fuse_root node s1 s2 m in
                        let placed : some s.fuse_root ≡ some parent = rw nothing at place in
                        let home : s1.fuse_root ≡ parent =
                          ap (λ (m : Mount M). m.fuse_root) u.rest_same ∙ cc (placed) in
                        let all : Updated entry.filename_vdir s1.fuse_root s s2 =
                          steps-Updated entry node s1.fuse_root s s1 s2 s2 u b (
                            Ensured-refl s2 (
                              Below-Ready s1.fuse_root node s1 s2 entry u.content_set u.standing
                                b)) in
                        (refl, rw (own, home) at all))
              | inr (uid, there) ↦
                  let k = uid ++ codes ".ics" in
                  let placed : M.get s.entries_vdir k ≡ some parent = rw there at place in
                  let found = still_found entry node parent s s1 k u placed in
                  let (e, content, n) = u.standing.is_indexed.sound k parent found in
                  rw (asked, wants, there, found)
                    (Returns-and_then _ _ (move_fuse_node parent node s1) _
                      (move_fuse_node-Relocated parent node s1 u.linked u.unique_but (ground arith)
                        u.content_set)
                      λ _ s2 (z, m).
                        let b = Relocated-Below parent node s1 s2 m in
                        let r2 = Below-Ready parent node s1 s2 entry u.content_set u.standing b in
                        let (e2, content2, n2) =
                          r2.is_indexed.sound k parent
                            (ap (λ (m : Mount M). M.get m.entries_vdir k) b.rest_same ∙ found) in
                        Returns-and_then _ _ (ensure_directory parent s2) (λ _. ok (done 0))
                          (ensure_directory-Ensured s2 parent e2 K r2
                            (λ path.
                              ap (λ (m : Mount M). m.can_write path)
                                (b.rest_same
                                  ∙ ap (λ (m : Mount M). record m { heap = s2.heap }) u.rest_same)
                              ∙ may path)
                            content2)
                          λ _ s3 d.
                            let all : Updated entry.filename_vdir parent s s3 =
                              steps-Updated entry node parent s s1 s2 s3 u b d in
                            (refl, rw own at all))
            ])
