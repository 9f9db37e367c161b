-- ===== src/Agenda/Sync/Settling.antt =====
-- The second loop of `load_root_node_tree`, over all names.
use ical_fs.Base.{
  ◌≡◌, refl, sym, ap, ◌∙◌, ◌≢◌, inl, inr, Bytes, str_eq, str_eq_iff, str_eq_refl, true, false, none,
  some, List, [], ◌∷◌, arith, ==_refl, Bool-cases, each, Returns, Returns-mono, Returns-and_then,
}
use ical_fs.Tree.{Ptr}
use ical_fs.Tree.Links.{parent_of}
use ical_fs.HashMap.{HashMap, listed, DistinctNames}
use ical_fs.Store.{AgendaEntry, Mount}
use ical_fs.Store.Names.{vdir_name_of}
use ical_fs.Store.Index.{IsIndexed}
use ical_fs.Ical.{Ical}
use ical_fs.Agenda.Sync.{place_entry}
use ical_fs.Agenda.Sync.Placing.{Placed, place_entry-Placed}
use ical_fs.Agenda.Sync.Marking.{KeepsParent}
use ical_fs.Agenda.Sync.Ready.{place_for, named_parent, place_of, Ready}

-- The names have taken their places, and no other node has moved.
pub record Settled ⦃I : Ical⦄ {M : HashMap} (names : List Bytes) (s s' : Mount M) : Type 0 where
  pub ready : Ready s'
  pub named_same : (x : Ptr) → named_parent s' x ≡ named_parent s x
  pub files_same : (x : Ptr) → vdir_name_of s'.heap x ≡ vdir_name_of s.heap x
  pub settled :
      (name : Bytes) (child : Ptr)
      → listed name names ≡ true
      → M.get s.entries_vdir name ≡ some child
      → parent_of s'.heap child ≡ place_of s child
  pub kept :
      (x : Ptr)
      → ((name : Bytes) → listed name names ≡ true → M.get s.entries_vdir name ≢ some x)
      → parent_of s'.heap x ≡ parent_of s.heap x
  pub rest_same : s' ≡ record s { heap = s'.heap; files = s'.files }

-- Nodes of different names are different.
one_name :
    {M : HashMap} (s : Mount M) (k j : Bytes) (p : Ptr)
    → IsIndexed s
    → M.get s.entries_vdir k ≡ some p
    → M.get s.entries_vdir j ≡ some p
    → k ≡ j
one_name s k j p i a b =
    let (e, c, n) = i.sound k p a in
    let (e', c', n') = i.sound j p b in
    let same : e ≡ e' = cc (c, c') in sym n ∙ (ap (λ (x : AgendaEntry). x.filename_vdir) same ∙ n')

module _ ⦃I : Ical⦄ {M : HashMap} (child : Ptr) (s s1 : Mount M) (p : Placed child s s1) where
  place_of_same : (x : Ptr) → place_of s1 x ≡ place_of s x
  place_of_same x =
      ap (λ (u : Mount M). place_for M u.fuse_root u.entries_vdir (named_parent s1 x)) p.rest_same
      ∙ ap (place_for M s.fuse_root s.entries_vdir) (p.named_same x)

  elsewhere : (x : Ptr) → x ≢ child → parent_of s1.heap x ≡ parent_of s.heap x
  elsewhere x ne = ground (arith, p.parent_placed x)

  in_place : parent_of s1.heap child ≡ place_of s child
  in_place = p.parent_placed child ∙ rw (==_refl child) refl

  -- One name more.
  Placed-Settled :
      (n : Bytes) (names : List Bytes) (s' : Mount M)
      → Ready s
      → listed n names ≡ false
      → M.get s.entries_vdir n ≡ some child
      → Settled names s1 s'
      → Settled (n ∷ names) s s'
  Placed-Settled n names s' r out found d =
      let index : s1.entries_vdir ≡ s.entries_vdir =
        ap (λ (u : Mount M). u.entries_vdir) p.rest_same in
      record {
        ready = d.ready;
        named_same = λ x. d.named_same x ∙ p.named_same x;
        files_same = λ x. d.files_same x ∙ p.files_same x;
        settled = λ name x m at. elim (Bool-cases (str_eq name n)) [
          | inl here ↦
              let mine : x ≡ child =
                cc (at, found, ap (M.get s.entries_vdir) ((str_eq_iff name n).0 here)) in
              rw mine (
                d.kept child (λ j m' at'.
                  let twin = one_name s n j child r.is_indexed found (rw (sym index) at') in
                  ground (arith, ap (λ k. listed k names) twin))
                ∙ in_place)
          | inr later ↦ d.settled name x (ground arith) (rw index at) ∙ place_of_same x
        ];
        kept = λ x apart.
            d.kept x (λ j m at. apart j (ground arith) (rw (sym index) at))
            ∙ elsewhere x
                (λ same. apart n (ground (arith, str_eq_refl n)) (found ∙ ap some (sym same)));
        rest_same =
            d.rest_same
            ∙ ap (λ (u : Mount M). record u { heap = s'.heap; files = s'.files }) p.rest_same;
      }

-- Every name has a node that stands nowhere yet.
abbrev pub Waiting : {M : HashMap} → List Bytes → Mount M → Type 0
Waiting {M = M} names s =
    (name : Bytes)
    → listed name names ≡ true
    → (child : Ptr) × (M.get s.entries_vdir name ≡ some child) × (parent_of s.heap child ≡ none)

module _ ⦃I : Ical⦄ {M : HashMap} (K : KeepsParent) where
  Placed-Waiting :
      (n : Bytes) (names : List Bytes) (child : Ptr) (s s1 : Mount M)
      → Placed child s s1
      → Ready s
      → listed n names ≡ false
      → M.get s.entries_vdir n ≡ some child
      → Waiting (n ∷ names) s
      → Waiting names s1
  Placed-Waiting n names child s s1 p r out found there name m =
      let (x, at, up) = there name (ground arith) in
      let ne : x ≢ child = λ same.
        let twin = one_name s n name child r.is_indexed found (at ∙ ap some same) in
        ground (arith, ap (λ k. listed k names) twin) in
      (
        x,
        ap (λ (u : Mount M). M.get u.entries_vdir name) p.rest_same ∙ at,
        elsewhere child s s1 p x ne ∙ up,
      )

  pub each-place_entry-Settled :
      (names : List Bytes) (s : Mount M)
      → Ready s
      → ((path : Bytes) → s.can_write path ≡ true)
      → DistinctNames names
      → Waiting names s
      → Returns (λ _ s'. Settled names s s') (each place_entry names s)
  each-place_entry-Settled [] s r may distinct there = record {
    ready = r;
    named_same = λ x. refl;
    files_same = λ x. refl;
    settled = λ name child m. cc;
    kept = λ x apart. refl;
    rest_same = refl;
  }
  each-place_entry-Settled (n ∷ names) s r may (out, distinct) there =
      let (child, found, free) = there n (ground (arith, str_eq_refl n)) in
      let (e, entry, own) = r.is_indexed.sound n child found in
      Returns-and_then _ _ (place_entry n s) (λ _. each place_entry names)
        (place_entry-Placed s n child e K r may found entry free)
        λ _ s1 p.
          Returns-mono _ _ (each place_entry names s1)
            (each-place_entry-Settled names s1 p.ready
              (λ path. ap (λ (u : Mount M). u.can_write path) p.rest_same ∙ may path) distinct
              (Placed-Waiting n names child s s1 p r out found there))
            λ _ s' d. Placed-Settled child s s1 p n names s' r out found d
