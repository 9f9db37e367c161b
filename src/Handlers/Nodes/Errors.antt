-- ===== src/Handlers/Nodes/Errors.antt =====
-- `fuse_unlink` and `fuse_rmdir` where they fail.
use ical_fs.Base.{
  ◌≡◌, refl, ◌∙◌, Bytes, Bool, true, false, Option, none, some, arith, Cmd, Run, ok, fault,
  and_then, ◌>>=◌, ◌>>◌, pure, if◌then◌else◌, ltb, length, ◌&&◌, is_some, Bool-cases, inl, inr,
}
use ical_fs.Tree.{Ptr, load}
use ical_fs.HashMap.{HashMap}
use ical_fs.Store.{Mount, on_heap, get_entry, get_vdir_filepath, is_root_node, delete_fuse_node}
use ical_fs.Lookup.{get_node_by_path}
use ical_fs.Lookup.Stable.{ReadOnly, ReadOnly-bind, get_node_by_path-ReadOnly}
use ical_fs.Ical.{Ical}
use ical_fs.Entry.{parse_ics_file, get_icalcomponent_from_node, node_is_directory}
use ical_fs.Agenda.Delete.{remove_file, delete_vdir_entry}
use ical_fs.Status.{Status, Errno, done, error, eio, eisdir, enotempty, enotdir, enoent}
use ical_fs.Handlers.Nodes.{fuse_unlink, fuse_rmdir}

-- A run that ends with an error leaves the state as it was.
abbrev pub KeepsOnError : {S : Type 0} → Cmd S Status → Type 0
KeepsOnError {S} m = (s : S) (x : Errno) (s' : S) → m s ≡ ok (error x) s' → s' ≡ s

KeepsOnError-bind :
    {S A : Type 0} (m : Cmd S A) (k : A → Cmd S Status)
    → ReadOnly m
    → ((a : A) → KeepsOnError (k a))
    → KeepsOnError (λ s. and_then (m s) k)
KeepsOnError-bind {S} {A} m k hm hk s x s' = go (m s) refl
  where
    go : (r : Run S A) → m s ≡ r → and_then r k ≡ ok (error x) s' → s' ≡ s
    go (ok a t) e h = hk a t x s' h ∙ hm s a t e
    go (fault f) e h = cc

KeepsOnError-pure : {S : Type 0} (r : Status) → KeepsOnError {S = S} (pure r)
KeepsOnError-pure r s x s' e = cc

module _ {M : HashMap} where
  load-ReadOnly : (p : Ptr) → ReadOnly {S = Mount M} (on_heap (load p))
  unfolding load
  load-ReadOnly p s a s' e = ground arith

  get_vdir_filepath-ReadOnly : (p : Ptr) → ReadOnly (get_vdir_filepath {M = M} p)
  unfolding get_vdir_filepath get_entry load
  get_vdir_filepath-ReadOnly p s a s' e = ground arith

  removes : (node : Ptr) (path : Bytes) → Cmd (Mount M) Status
  removes node path = do
    removed ← remove_file path
    elim removed [ false ↦ pure (error eio) | true ↦ do delete_fuse_node node; pure (done 0) ]

  deletes_done :
      (node : Ptr) (s : Mount M) (x : Errno) (s' : Mount M)
      → and_then (delete_fuse_node node s) (λ _. ok (done 0)) ≡ ok (error x) s'
      → ⊥
  deletes_done node s x s' = go (delete_fuse_node node s)
    where
      go : (r : Run (Mount M) (Unit {0})) → and_then r (λ _. ok (done 0)) ≡ ok (error x) s' → ⊥
      go (ok a t) e = cc
      go (fault f) e = cc

  removes-KeepsOnError : (node : Ptr) (path : Bytes) → KeepsOnError (removes node path)
  unfolding removes remove_file
  removes-KeepsOnError node path s x s' e =
      elim (Bool-cases (is_some (s.files path) && s.can_remove path)) [
        | inl may ↦ absurd (deletes_done node _ x s' (rw (may, ◌>>=◌, ◌>>◌) at e))
        | inr denied ↦ cc (rw (denied, ◌>>=◌) at e)
      ]

  delete_vdir_entry-KeepsOnError : (node : Ptr) → KeepsOnError (delete_vdir_entry {M = M} node)
  unfolding delete_vdir_entry removes
  delete_vdir_entry-KeepsOnError node =
      KeepsOnError-bind (get_vdir_filepath node) (removes node) (get_vdir_filepath-ReadOnly node)
        (removes-KeepsOnError node)

module _ ⦃I : Ical⦄ {M : HashMap} where
  get_icalcomponent_from_node-ReadOnly :
      (p : Ptr) → ReadOnly (get_icalcomponent_from_node {M = M} p)
  unfolding get_icalcomponent_from_node parse_ics_file
  get_icalcomponent_from_node-ReadOnly p = ReadOnly-bind (on_heap (load p)) _ (load-ReadOnly p) λ n.
      elim (is_root_node n)
        as (λ b. ReadOnly {S = Mount M} {A = Option I.Component} (elim b [
          | true ↦ pure none
          | false ↦ do path ← get_vdir_filepath p; parse_ics_file path
        ])) [
          | true ↦ λ s a s' e. cc
          | false ↦
              ReadOnly-bind (get_vdir_filepath p) _ (get_vdir_filepath-ReadOnly p)
                λ path s a s' e. ground arith
        ]

  KeepsOnError-if :
      (b : Bool) (m k : Cmd (Mount M) Status)
      → KeepsOnError m
      → KeepsOnError k
      → KeepsOnError (if b then m else k)
  KeepsOnError-if true m k hm hk = hm
  KeepsOnError-if false m k hm hk = hk

  unlink_node-KeepsOnError :
      (node : Ptr)
      → KeepsOnError {S = Mount M} (do
        node_ics ← get_icalcomponent_from_node node
        n ← on_heap (load node)
        if node_is_directory n node_ics then pure (error eisdir) else delete_vdir_entry node)
  unlink_node-KeepsOnError node =
      KeepsOnError-bind (get_icalcomponent_from_node node) _
        (get_icalcomponent_from_node-ReadOnly node)
        λ c. KeepsOnError-bind (on_heap (load node)) _ (load-ReadOnly node) λ n.
          KeepsOnError-if (node_is_directory n c) _ _ (KeepsOnError-pure (error eisdir))
            (delete_vdir_entry-KeepsOnError node)

  rmdir_node-KeepsOnError :
      (node : Ptr)
      → KeepsOnError {S = Mount M} (do
        node_ics ← get_icalcomponent_from_node node
        n ← on_heap (load node)
        if node_is_directory n node_ics
            then (if ltb 0 (length n.children)
                then pure (error enotempty)
                else delete_vdir_entry node)
            else pure (error enotdir))
  rmdir_node-KeepsOnError node =
      KeepsOnError-bind (get_icalcomponent_from_node node) _
        (get_icalcomponent_from_node-ReadOnly node)
        λ c. KeepsOnError-bind (on_heap (load node)) _ (load-ReadOnly node) λ n.
          KeepsOnError-if (node_is_directory n c) _ _
            (KeepsOnError-if (ltb 0 (length n.children)) _ _ (KeepsOnError-pure (error enotempty))
              (delete_vdir_entry-KeepsOnError node))
            (KeepsOnError-pure (error enotdir))

  with_node-KeepsOnError :
      (path : Bytes) (k : Ptr → Cmd (Mount M) Status)
      → ((node : Ptr) → KeepsOnError (k node))
      → KeepsOnError {S = Mount M} (do
        found ← get_node_by_path path
        elim found [ none ↦ pure (error enoent) | some node ↦ k node ])
  with_node-KeepsOnError path k h =
      KeepsOnError-bind (get_node_by_path path) _ (get_node_by_path-ReadOnly path) λ o.
        elim o
          as (λ o.
            KeepsOnError {S = Mount M}
              (elim o [ none ↦ pure (error enoent) | some node ↦ k node ])) [
                | none ↦ KeepsOnError-pure (error enoent)
                | some node ↦ h node
              ]

  -- Whatever the path and the mount, a call of `fuse_unlink` or `fuse_rmdir` that ends with an error
  -- has changed nothing.
  pub removal-KeepsOnError :
      (path : Bytes)
      → KeepsOnError (fuse_unlink {M = M} path) × KeepsOnError (fuse_rmdir {M = M} path)
  unfolding fuse_unlink fuse_rmdir
  removal-KeepsOnError path = (
    with_node-KeepsOnError path _ unlink_node-KeepsOnError,
    with_node-KeepsOnError path _ rmdir_node-KeepsOnError,
  )
