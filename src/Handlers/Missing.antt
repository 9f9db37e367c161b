-- ===== src/Handlers/Missing.antt =====
-- What the handlers report for a path that leads nowhere.
use ical_fs.Base.{
  ℕ, ◌≤◌, ◌*◌, ◌<◌, ◌≡◌, refl, ap, ◌∙◌, inl, inr, Bytes, codes, str_eq, str_eq_iff, true, false,
  none, [], arith, length, leb, ok, and_then, ◌>>=◌, Bool-cases, Option-cases,
}
use ical_fs.Path.{split_path, path_is_hidden}
use ical_fs.Tree.{Ptr}
use ical_fs.Tree.Links.{live}
use ical_fs.HashMap.{HashMap}
use ical_fs.Store.{Mount}
use ical_fs.Store.Siblings.{IsTree}
use ical_fs.Lookup.{max_segments, get_node_by_path}
use ical_fs.Lookup.Chains.{Chain, get_node_by_path-Leads}
use ical_fs.Ical.{Ical}
use ical_fs.Status.{error, enoent, enonet}
use ical_fs.Handlers.Content.{
  zero_stat, fuse_getattr, fuse_open, fuse_readdir, fuse_read, fuse_write,
}
use ical_fs.Handlers.Attributes.{
  max_name, max_value, fuse_getxattr, fuse_setxattr, fuse_removexattr,
}
use ical_fs.Handlers.Listing.{fuse_listxattr}
use ical_fs.Handlers.Nodes.{fuse_unlink, fuse_rmdir}

-- In a tree, the names on the path, at most 255, lead to no node.
pub record Missing {M : HashMap} (path : Bytes) (s : Mount M) : Type 0 where
  pub is_tree : IsTree s.heap
  pub root_live : live s.heap s.fuse_root ≡ true
  pub short : length (split_path path) ≤ max_segments
  pub nowhere : (q : Ptr) → Chain s.heap s.fuse_root (split_path path) q → ⊥

-- Each handler ends with its error and leaves the mount alone.
pub record ReportsMissing ⦃I : Ical⦄ {M : HashMap} (path : Bytes) (s : Mount M) : Type 0 where
  pub getattr : fuse_getattr path s ≡ ok (error enoent, zero_stat) s
  pub opened : fuse_open path s ≡ ok (error enoent) s
  pub readdir : fuse_readdir path s ≡ ok (error enoent, []) s
  pub read : (size offset : ℕ) → fuse_read path size offset s ≡ ok (error enoent, []) s
  pub write :
      (buf : Bytes) (offset : ℕ)
      → path_is_hidden path ≡ false
      → fuse_write path buf offset s ≡ ok (error enonet) s
  pub unlink : fuse_unlink path s ≡ ok (error enoent) s
  pub rmdir : fuse_rmdir path s ≡ ok (error enoent) s
  pub getxattr :
      (name : Bytes) (size : ℕ) → fuse_getxattr path name size s ≡ ok (error enonet, []) s
  pub listxattr : (size : ℕ) → fuse_listxattr path size s ≡ ok (error enonet, []) s
  pub removexattr : (name : Bytes) → fuse_removexattr path name s ≡ ok (error enonet) s
  pub setxattr :
      (name value : Bytes) (size : ℕ)
      → length name ≤ 255
      → length value < 64 * 1024
      → fuse_setxattr path name value size s ≡ ok (error enonet) s

module _ {M : HashMap} (path : Bytes) (s : Mount M) (m : Missing path s) where
  get_node_by_path-Missing : get_node_by_path path s ≡ ok none s
  get_node_by_path-Missing =
      let (o, ran, leads) = get_node_by_path-Leads s path m.is_tree m.root_live m.short in
      elim (Option-cases o) [
        | inl nothing ↦ ran ∙ ap (λ r. ok r s) nothing
        | inr (q, found) ↦ absurd (m.nowhere q ((leads q).0 found))
      ]

  not_root : str_eq path (codes "/") ≡ false
  unfolding split_path
  not_root = elim (Bool-cases (str_eq path (codes "/"))) [
    | inr other ↦ other
    | inl root ↦
        let same : path ≡ codes "/" = (str_eq_iff path (codes "/")).0 root in
        absurd (m.nowhere s.fuse_root (rw same refl))
  ]

module _ ⦃I : Ical⦄ {M : HashMap} (path : Bytes) (s : Mount M) where
  -- In a tree, a path whose names, at most 255, lead to no node: reading, listing, opening, writing,
  -- removing it and asking for or changing its attributes each end with ENOENT or ENONET, without a
  -- fault and without a change of the mount. The path of a write must not start with a dot; the name
  -- of an attribute to set has at most 255 bytes, and its value fewer than 64 kilobytes.
  pub handlers-ReportsMissing : Missing path s → ReportsMissing path s
  unfolding fuse_getattr fuse_open fuse_readdir fuse_read fuse_write fuse_unlink fuse_rmdir
      fuse_getxattr fuse_listxattr fuse_removexattr fuse_setxattr
  handlers-ReportsMissing m =
      let gone = get_node_by_path-Missing path s m in
      record {
        getattr = rw (not_root path s m, ◌>>=◌, gone, and_then) refl;
        opened = rw (◌>>=◌, gone, and_then) refl;
        readdir = rw (◌>>=◌, gone, and_then) refl;
        read = λ size offset. rw (◌>>=◌, gone, and_then) refl;
        write = λ buf offset shown. rw (shown, ◌>>=◌, gone, and_then) refl;
        unlink = rw (◌>>=◌, gone, and_then) refl;
        rmdir = rw (◌>>=◌, gone, and_then) refl;
        getxattr = λ name size. rw (◌>>=◌, gone, and_then) refl;
        listxattr = λ size. rw (◌>>=◌, gone, and_then) refl;
        removexattr = λ name. rw (◌>>=◌, gone, and_then) refl;
        setxattr = λ name value size short small.
            let fits : leb max_name (length name) ≡ false = ground arith in
            let fits_value : leb max_value (length value) ≡ false = ground arith in
            rw (fits, fits_value, ◌>>=◌, gone, and_then) refl;
      }
