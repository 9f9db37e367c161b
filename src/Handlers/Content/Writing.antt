-- ===== src/Handlers/Content/Writing.antt =====
-- `fuse_write` and `fuse_read` one after the other.
use ical_fs.Base.{
  ℕ, ◌≤◌, ◌≡◌, refl, ap, ◌≢◌, inl, inr, Bytes, str_eq_iff, true, false, none, some, List, [], ◌∷◌,
  arith, length, Lacks, ok, and_then, ◌>>=◌, ◌>>◌, if◌then◌else◌, Bool-cases,
}
use ical_fs.Path.{path_is_hidden}
use ical_fs.Tree.{Ptr}
use ical_fs.HashMap.{HashMap}
use ical_fs.Store.{AgendaEntry, Node, Mount}
use ical_fs.Lookup.Stable.{Found, get_node_by_path-Found}
use ical_fs.Ical.{Ical}
use ical_fs.Entry.{prepared, set_first_modified}
use ical_fs.Entry.Stored.{
  Stored, file_of, with_file, get_icalcomponent_from_node-Stored, write_ical_file-Stored,
  with_file-Stored,
}
use ical_fs.Status.{done}
use ical_fs.Handlers.Content.{
  c_string, rstrins, read_bytes, icalcomponent_insert_description, fuse_read, fuse_write,
}
use ical_fs.Handlers.Content.Reading.{c_string_clean, read_bytes-rstrins}

module _ ⦃I : Ical⦄ where
  -- The description of a component, "" where it has none.
  abbrev pub description_of : I.Component → Bytes
  description_of c = elim (I.get_description c) [ none ↦ [] | some d ↦ d ]

  -- What is relied on of the description: it is read as it was set, the properties of the calendar
  -- around an entry do not matter to it, and a text that is not empty is the same when the printed
  -- component is parsed.
  pub record KeepsDescription : Type 0 where
    pub get-set : (c : I.Component) (t : Bytes) → I.get_description (I.set_description c t) ≡ some t
    pub inner-set :
        (c : I.Component) (t : Bytes) → I.inner c ≢ none → I.inner (I.set_description c t) ≢ none
    pub get-outer :
        (c : I.Component) (ps : List I.Property)
        → I.inner c ≢ none
        → I.get_description (I.with_properties c ps) ≡ I.get_description c
    pub get-inner : (c : I.Component) → I.get_description (I.get_inner c) ≡ I.get_description c
    pub reread :
        (c : I.Component) (t : Bytes)
        → I.get_description c ≡ some t
        → t ≢ []
        → Lacks 0 t
        → (c' : I.Component) × (I.from_string (I.as_ical_string c) ≡ some c')
          × (I.get_description c' ≡ some t)

  prepared-description :
      (K : KeepsDescription) (now : ℕ) (c : I.Component) (t : Bytes)
      → I.inner c ≢ none
      → I.get_description c ≡ some t
      → t ≢ []
      → I.get_description (prepared now c) ≡ some t
  unfolding prepared
  prepared-description K now c t inner d ne =
      let ps = set_first_modified now (I.properties c) in
      ground (arith, K.get-outer c ps inner, K.get-inner (I.with_properties c ps), str_eq_iff t [])

  -- The text that a write leaves in the file of an entry with the component `c`.
  pub written_text : ℕ → I.Component → Bytes → ℕ → Bytes
  written_text now c buf offset =
      I.as_ical_string (prepared now (icalcomponent_insert_description c buf offset))

  -- The written text, parsed, has a description from which the bytes are read back.
  written_text-read :
      (K : KeepsDescription) (now : ℕ) (c : I.Component) (buf : Bytes) (offset : ℕ)
      → I.inner c ≢ none
      → Lacks 0 (description_of c)
      → Lacks 0 buf
      → buf ≢ []
      → offset ≤ length (description_of c)
      → (c' : I.Component) × (d : Bytes) × (I.from_string (written_text now c buf offset) ≡ some c')
        × (I.get_description c' ≡ some d)
        × (read_bytes d (length buf) offset ≡ buf)
  unfolding written_text icalcomponent_insert_description
  written_text-read K now c buf offset inner clean clean_buf ne within =
      let new = c_string (rstrins (description_of c) offset buf) in
      let (back, before, sized) =
        read_bytes-rstrins (description_of c) buf offset clean clean_buf within in
      let filled : new ≢ [] = λ empty. ne (length_zero buf (ground (arith, ap length empty))) in
      let ic = I.set_description c new in
      let (c', parsed, d) =
        K.reread (prepared now ic) new
          (prepared-description K now ic new (K.inner-set c new inner) (K.get-set c new) filled)
          filled (c_string_clean (rstrins (description_of c) offset buf)) in
      (c', new, parsed, d, back)
    where
      length_zero : (b : Bytes) → length b ≡ 0 → b ≡ []
      length_zero [] e = refl
      length_zero (x ∷ b) e = ground arith

module _ ⦃I : Ical⦄ {M : HashMap} (path : Bytes) (node : Ptr) (s : Mount M) {n : Node}
    {e : AgendaEntry} {text : Bytes} (c : I.Component) (buf : Bytes) (offset : ℕ) where
  -- A write to a path that does not start with a dot and leads in a tree to an entry, whose file
  -- is parsed as a component, reports every byte as written, whether or not the file can be
  -- written: only if it can is there a new text in the file, and nothing else ever changes.
  pub fuse_write-reports :
      path_is_hidden path ≡ false
      → Found s path node
      → Stored s node n e text
      → I.from_string text ≡ some c
      → fuse_write path buf offset s
        ≡ ok (done (length buf)) (
            if s.can_write (file_of s e)
            then with_file (file_of s e) (written_text s.clock c buf offset) s
            else s)
  unfolding fuse_write written_text
  fuse_write-reports shown f t parsed =
      rw
        (
          shown,
          get_node_by_path-Found s path node f,
          get_icalcomponent_from_node-Stored s node t,
          parsed,
          and_then,
          ◌>>=◌,
          ◌>>◌,
          write_ical_file-Stored s node (icalcomponent_insert_description c buf offset) t,
        )
        (elim (Bool-cases (s.can_write (file_of s e))) [
          | inl y ↦ rw y refl
          | inr denied ↦ rw denied refl
        ])

  -- Given what KeepsDescription relies on, let a path that does not start with a dot lead in a
  -- tree to an entry whose file can be written and is parsed as a component with an inner one.
  -- Bytes, one at least and none of them a terminator, that a write puts into its description,
  -- which has no terminator either, within it or at its end, are all reported as written, and a
  -- read of their number from the same offset gives them back.
  pub fuse_read-fuse_write :
      KeepsDescription
      → path_is_hidden path ≡ false
      → Found s path node
      → Stored s node n e text
      → I.from_string text ≡ some c
      → s.can_write (file_of s e) ≡ true
      → I.inner c ≢ none
      → Lacks 0 (description_of c)
      → Lacks 0 buf
      → buf ≢ []
      → offset ≤ length (description_of c)
      → (s' : Mount M) × (fuse_write path buf offset s ≡ ok (done (length buf)) s')
        × (fuse_read path (length buf) offset s' ≡ ok (done (length buf), buf) s')
  unfolding fuse_read
  fuse_read-fuse_write K shown f t parsed may inner clean clean_buf ne within =
      let new = written_text s.clock c buf offset in
      let s' = with_file (file_of s e) new s in
      let (c', d, reparsed, described, back) =
        written_text-read K s.clock c buf offset inner clean clean_buf ne within in
      let f' : Found s' path node = record {
        is_tree = f.is_tree;
        root_live = f.root_live;
        short = f.short;
        chain = f.chain;
      } in
      (
        s',
        rw (fuse_write-reports shown f t parsed, may) refl,
        rw
            (
              get_node_by_path-Found s' path node f',
              get_icalcomponent_from_node-Stored s' node (with_file-Stored s node new t),
              reparsed,
              and_then,
              ◌>>=◌,
              described,
              back,
            )
            refl,
      )
