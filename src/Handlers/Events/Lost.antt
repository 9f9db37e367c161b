-- ===== src/Handlers/Events/Lost.antt =====
-- The delete events of the watcher, which never find their node.
use ical_fs.Base.{
  ◌≡◌, refl, ◌≢◌, inl, inr, Bytes, codes, true, none, [], ◌∷◌, ◌++◌, Option-cases, Bool-cases,
  Lacks, ok, and_then, ◌>>=◌,
}
use ical_fs.Path.{append_path}
use ical_fs.HashMap.{HashMap}
use ical_fs.Store.{Mount, get_fuse_node_from_vdir_name}
use ical_fs.Lookup.{get_node_by_uuid}
use ical_fs.Ical.{Ical}
use ical_fs.Agenda.Delete.{delete_from_vdir_path}
use ical_fs.Handlers.Events.{Event, handle_vdir_event}
use ical_fs.Base.{strstr}

holds_slash : (a t u : Bytes) → Lacks b'/' ((a ++ (b'/' ∷ t)) ++ u) → ⊥
holds_slash [] t u (ne, h) = ne refl
holds_slash (c ∷ a) t u (ne, h) = holds_slash a t u h

module _ ⦃I : Ical⦄ {M : HashMap} (s : Mount M)
    (slashless : (k : Bytes) → M.get s.entries_vdir k ≢ none → Lacks b'/' k) where
  not_found : (name : Bytes) → M.get s.entries_vdir (append_path s.vdir name ++ codes ".ics") ≡ none
  unfolding append_path
  not_found name =
      elim (Option-cases (M.get s.entries_vdir (append_path s.vdir name ++ codes ".ics"))) [
        | inl missing ↦ missing
        | inr (p, there) ↦ absurd (holds_slash s.vdir name (codes ".ics") (slashless _ (λ e. cc)))
      ]

  -- Where the names in the index hold no slash, as file names do not, an event that says that a file
  -- was deleted changes nothing: the node of the file stays in the tree and in the index.
  pub handle_vdir_event-deleted :
      (event : Event) → event.in_delete ≡ true → handle_vdir_event event s ≡ ok tt s
  unfolding handle_vdir_event delete_from_vdir_path get_node_by_uuid get_fuse_node_from_vdir_name
  handle_vdir_event-deleted event deleted = elim (Bool-cases (strstr event.name (codes ".ics"))) [
    | inl calendar ↦ rw (calendar, deleted, and_then, ◌>>=◌, not_found event.name) refl
    | inr foreign ↦ rw foreign refl
  ]
