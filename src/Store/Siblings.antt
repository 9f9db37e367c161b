-- ===== src/Store/Siblings.antt =====
-- The names of siblings, and what a new file name and a change of the children do to them.
use ical_fs.Base.{
  ◌≡◌, refl, ap, ◌∙◌, Bytes, str_eq_iff, true, false, ◌||◌, some, List, [], ◌∷◌, ◌++◌, arith, ◌==◌,
  ◌≢◌, ok, if◌then◌else◌,
}
use ical_fs.Tree.{Ptr, Heap, write, load, store}
use ical_fs.Tree.Links.{
  has, without, live, children_of, parent_of, content_of, capacity_of, SameNodes,
}
use ical_fs.Tree.Moves.{Linked}
use ical_fs.HashMap.{HashMap, listed, DistinctNames}
use ical_fs.Store.{AgendaEntry, Node, Mount, get_entry, set_node_filename}
use ical_fs.Store.Names.{filename_of, vdir_name_of, names_of, AllLive}

-- The entry of `child` has the file name `name`; nothing else has changed.
pub record Renamed (child : Ptr) (name : Bytes) (h h' : Heap AgendaEntry) : Type 0 where
  pub live_same : (x : Ptr) → live h' x ≡ live h x
  pub next_same : h'.next ≡ h.next
  pub children_same : (x : Ptr) → children_of h' x ≡ children_of h x
  pub parent_same : (x : Ptr) → parent_of h' x ≡ parent_of h x
  pub capacity_same : (x : Ptr) → capacity_of h' x ≡ capacity_of h x
  pub name_set : (x : Ptr) → filename_of h' x ≡ (if x == child then name else filename_of h x)

pub renamed : Ptr → Bytes → Node → AgendaEntry → Heap AgendaEntry → Heap AgendaEntry
renamed child name n e h =
    write child (some (record n { content = some (record e { filename = name }) })) h

module _ {M : HashMap} (s : Mount M) where
  pub set_node_filename-renamed :
      (child : Ptr) (name : Bytes) {n : Node} {e : AgendaEntry}
      → s.heap.cell child ≡ some n
      → n.content ≡ some e
      → set_node_filename child name s ≡ ok 0 (record s { heap = renamed child name n e s.heap })
  unfolding set_node_filename get_entry load store renamed
  set_node_filename-renamed child name p q = ground arith

pub renamed-Renamed :
    (child : Ptr) (name : Bytes) (h : Heap AgendaEntry) {n : Node} (e : AgendaEntry)
    → h.cell child ≡ some n
    → Renamed child name h (renamed child name n e h)
unfolding write renamed
renamed-Renamed child name h e p = record {
  live_same = λ x. ground arith;
  next_same = ground arith;
  children_same = λ x. ground arith;
  parent_same = λ x. ground arith;
  capacity_same = λ x. ground arith;
  name_set = λ x. ground arith;
}

pub content_of-renamed :
    (child : Ptr) (name : Bytes) (h : Heap AgendaEntry) (n : Node) (e : AgendaEntry)
    → content_of (renamed child name n e h) child ≡ some (record e { filename = name })
unfolding write renamed
content_of-renamed child name h n e = ground arith

pub content_of-renamed_other :
    (child : Ptr) (name : Bytes) (h : Heap AgendaEntry) (n : Node) (e : AgendaEntry) (x : Ptr)
    → x ≢ child
    → content_of (renamed child name n e h) x ≡ content_of h x
unfolding write renamed
content_of-renamed_other child name h n e x ne = ground arith

pub vdir_name_of-renamed :
    (child : Ptr) (name : Bytes) (h : Heap AgendaEntry) {n : Node} (e : AgendaEntry)
    → h.cell child ≡ some n
    → n.content ≡ some e
    → (x : Ptr) → vdir_name_of (renamed child name n e h) x ≡ vdir_name_of h x
unfolding write renamed
vdir_name_of-renamed child name h e p c x = ground arith

pub cell_of-renamed :
    (child : Ptr) (name : Bytes) (h : Heap AgendaEntry) (n : Node) (e : AgendaEntry)
    → (renamed child name n e h).cell child
      ≡ some (record n { content = some (record e { filename = name }) })
unfolding write renamed
cell_of-renamed child name h n e = ground arith

pub Renamed-Linked :
    (child : Ptr) (name : Bytes) (h h' : Heap AgendaEntry)
    → Linked h
    → Renamed child name h h'
    → Linked h'
Renamed-Linked child name h h' l r = record {
  links = λ p c. rw (r.children_same p, r.parent_same c) (l.links p c);
  distinct = λ p. rw (r.children_same p) (l.distinct p);
  fits = λ p. rw (r.children_same p, r.capacity_same p) (l.fits p);
  unused = λ p far. r.live_same p ∙ l.unused p (ground (arith, r.next_same));
}

-- The names of the children of each node are distinct.
abbrev pub UniqueNames : Heap AgendaEntry → Type 0
UniqueNames h = (p : Ptr) → DistinctNames (names_of h (children_of h p))

pub names_of-append :
    (h : Heap AgendaEntry) (cs : List Ptr) (c : Ptr)
    → names_of h (cs ++ c ∷ []) ≡ names_of h cs ++ filename_of h c ∷ []
names_of-append h [] c = refl
names_of-append h (d ∷ cs) c = ap (λ ns. filename_of h d ∷ ns) (names_of-append h cs c)

pub names_of-Renamed :
    (child : Ptr) (name : Bytes) (h h' : Heap AgendaEntry) (cs : List Ptr)
    → Renamed child name h h'
    → has child cs ≡ false
    → names_of h' cs ≡ names_of h cs
names_of-Renamed child name h h' [] r out = refl
names_of-Renamed child name h h' (d ∷ cs) r out =
    ground (arith, r.name_set d, names_of-Renamed child name h h' cs r)

pub names_of-SameNodes :
    (h h' : Heap AgendaEntry) (cs : List Ptr) → SameNodes h h' → names_of h' cs ≡ names_of h cs
names_of-SameNodes h h' [] n = refl
names_of-SameNodes h h' (d ∷ cs) n = ground (arith, n.content_same d, names_of-SameNodes h h' cs n)

pub DistinctNames-append :
    (k : Bytes) (ks : List Bytes)
    → DistinctNames ks
    → listed k ks ≡ false
    → DistinctNames (ks ++ k ∷ [])
DistinctNames-append k [] d out = (refl, tt)
DistinctNames-append k (j ∷ js) (new, d) out = (
  ground (arith, listed-append j js (k ∷ []), str_eq_iff j k, str_eq_iff k j),
  DistinctNames-append k js d (ground arith),
)
  where
    listed-append :
        (x : Bytes) (xs ys : List Bytes) → listed x (xs ++ ys) ≡ (listed x xs || listed x ys)
    listed-append x [] ys = refl
    listed-append x (z ∷ xs) ys = ground (arith, listed-append x xs ys)

pub listed-without :
    (k : Bytes) (h : Heap AgendaEntry) (c : Ptr) (cs : List Ptr)
    → listed k (names_of h cs) ≡ false
    → listed k (names_of h (without c cs)) ≡ false
listed-without k h c [] out = refl
listed-without k h c (d ∷ cs) out = ground (arith, listed-without k h c cs)

pub DistinctNames-without :
    (h : Heap AgendaEntry) (c : Ptr) (cs : List Ptr)
    → DistinctNames (names_of h cs)
    → DistinctNames (names_of h (without c cs))
DistinctNames-without h c [] d = tt
DistinctNames-without h c (e ∷ cs) (new, d) =
    ground (arith, DistinctNames-without h c cs d, listed-without (filename_of h e) h c cs)

has-AllLive :
    (h : Heap AgendaEntry) (cs : List Ptr)
    → ((c : Ptr) → has c cs ≡ true → live h c ≡ true)
    → AllLive h cs
has-AllLive h [] k = tt
has-AllLive h (c ∷ cs) k = (k c (ground arith), has-AllLive h cs (λ d m. k d (ground arith)))

pub children_of-AllLive : (h : Heap AgendaEntry) (p : Ptr) → Linked h → AllLive h (children_of h p)
children_of-AllLive h p l = has-AllLive h _ (λ c m. ground (arith, l.links p c))

-- The tree is linked, and siblings have different names.
pub record IsTree (h : Heap AgendaEntry) : Type 0 where
  pub linked : Linked h
  pub unique : UniqueNames h
