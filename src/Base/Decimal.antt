-- ===== src/Base/Decimal.antt =====
-- `%zu`: the decimal digits of a number, and that they determine it.
use ical_fs.Base.Bools.{ltb, if◌then◌else◌, Bool-cases}
use ical_fs.Base.Strings.{Bytes}
use Prim.Native.Nat.{ℕ, zero, suc, ◌+◌, ◌-◌, ◌*◌, ◌/◌, ◌%◌, ◌<◌}
use mathlib.Core.Path.{◌≡◌, refl, sym, ap, ◌∙◌}
use mathlib.Core.Logic.{inl, inr}
use mathlib.Core.List.{[], ◌∷◌, ◌++◌}
use native.Mathlib.Omega.{arith}

-- One digit for each round; `n + 1` rounds are more than `n` has digits.
digits : ℕ → ℕ → Bytes
digits zero n = []
digits (suc k) n =
    let rest = digits k (n / 10) in
    if ltb n 10 then (b'0' + n) ∷ [] else rest ++ (b'0' + n % 10) ∷ []

unfoldable pub decimal : ℕ → Bytes
unfolding digits
decimal n = digits (suc n) n

value_from : ℕ → Bytes → ℕ
value_from acc [] = acc
value_from acc (c ∷ s) = value_from (acc * 10 + (c - b'0')) s

value_from-snoc :
    (acc : ℕ) (s : Bytes) (c : ℕ)
    → value_from acc (s ++ c ∷ []) ≡ value_from acc s * 10 + (c - b'0')
unfolding value_from
value_from-snoc acc [] c = refl
value_from-snoc acc (d ∷ s) c = value_from-snoc (acc * 10 + (d - b'0')) s c

value-digits : (k n : ℕ) → n < k → value_from 0 (digits k n) ≡ n
unfolding digits
value-digits zero n h = absurd (omega arith)
value-digits (suc k) n h = elim (Bool-cases (ltb n 10)) [
  | inl small ↦ rw small (unfold value_from in (omega arith))
  | inr big ↦
      rw (big, value_from-snoc 0 (digits k (n / 10)) (b'0' + n % 10))
        (omega (arith, value-digits k (n / 10) (ground arith)))
]

-- Different numbers have different digits.
pub decimal-injective : (n m : ℕ) → decimal n ≡ decimal m → n ≡ m
unfolding decimal
decimal-injective n m e =
    sym (value-digits (suc n) n (omega arith))
    ∙ (ap (value_from 0) e ∙ value-digits (suc m) m (omega arith))
