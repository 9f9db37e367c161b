-- ===== src/Base/Search.antt =====
-- `strrchr`, by the offset that it finds, and what it says of the string.
use ical_fs.Base.Bools.{◌==◌, if◌then◌else◌, Bool-cases}
use ical_fs.Base.Lists.{length}
use ical_fs.Base.Strings.{Bytes, Lacks}
use Prim.Native.Nat.{ℕ, suc}
use mathlib.Core.Path.{◌≡◌, refl, ap}
use mathlib.Core.Logic.{inl, inr}
use mathlib.Core.Option.{Option, none, some}
use mathlib.Core.List.{[], ◌∷◌, ◌++◌}
use native.Mathlib.Omega.{arith}

-- The offset of the last `b` in the string; `none` is `NULL`.
unfoldable pub strrchr : Bytes → ℕ → Option ℕ
strrchr [] b = none
strrchr (c ∷ s) b = elim (strrchr s b) [
  | some i ↦ some (suc i)
  | none ↦ if c == b then some 0 else none
]

pub strrchr-Lacks : (s : Bytes) (b : ℕ) → Lacks b s → strrchr s b ≡ none
unfolding strrchr
strrchr-Lacks [] b h = refl
strrchr-Lacks (c ∷ s) b (ne, h) = ground (arith, strrchr-Lacks s b h)

pub strrchr-append : (a t : Bytes) (b : ℕ) → Lacks b t → strrchr (a ++ b ∷ t) b ≡ some (length a)
unfolding strrchr
strrchr-append [] t b h = ground (arith, strrchr-Lacks t b h)
strrchr-append (c ∷ a) t b h = ground (arith, strrchr-append a t b h)

-- What is known of a string by its last `b`.
pub data LastAt (b : ℕ) (s : Bytes) : Option ℕ → Type 0 where
  absent : Lacks b s → LastAt b s none
  found : (a t : Bytes) → s ≡ a ++ b ∷ t → Lacks b t → LastAt b s (some (length a))

LastAt-cons :
    (b c : ℕ) (s : Bytes) {o : Option ℕ}
    → strrchr s b ≡ o
    → LastAt b s o
    → LastAt b (c ∷ s) (strrchr (c ∷ s) b)
unfolding strrchr
LastAt-cons b c s e (absent h) = rw e (elim (Bool-cases (c == b)) [
  | inl y ↦ rw y (found [] s (ground arith) h)
  | inr n ↦ rw n (absent (ground arith, h))
])
LastAt-cons b c s e (found a t eq h) = rw e (found (c ∷ a) t (ap (λ u. c ∷ u) eq) h)

pub strrchr-LastAt : (s : Bytes) (b : ℕ) → LastAt b s (strrchr s b)
unfolding strrchr
strrchr-LastAt [] b = absent tt
strrchr-LastAt (c ∷ s) b = LastAt-cons b c s refl (strrchr-LastAt s b)
