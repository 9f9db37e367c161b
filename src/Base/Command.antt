-- ===== src/Base/Command.antt =====
-- Commands: code that reads and writes a state, and that may end in a fault, where the C program
-- is killed by a failed `assert` or runs into undefined behaviour.
use mathlib.Core.List.{List, [], ◌∷◌}

pub data Fault : Type 0 where
  null_pointer dangling out_of_bounds assertion out_of_fuel : Fault

pub data Run (S A : Type 0) : Type 0 where
  ok : A → S → Run S A
  fault : Fault → Run S A

abbrev pub Cmd : Type 0 → Type 0 → Type 0
Cmd S A = S → Run S A

module _ {S A : Type 0} where
  abbrev pub pure : A → Cmd S A
  pure a s = ok a s

  abbrev pub fail : Fault → Cmd S A
  fail e s = fault e

abbrev pub and_then : {S A B : Type 0} → Run S A → (A → Cmd S B) → Run S B
and_then (ok a s) k = k a s
and_then (fault e) k = fault e

infixl 5 ◌>>=◌ ◌>>◌
abbrev pub ◌>>=◌ : {S A B : Type 0} → Cmd S A → (A → Cmd S B) → Cmd S B
◌>>=◌ m k s = and_then (m s) k

abbrev pub ◌>>◌ : {S A B : Type 0} → Cmd S A → Cmd S B → Cmd S B
◌>>◌ m n s = and_then (m s) (λ _. n)

-- `for (i = 0; i < n; i++) body(xs[i]);`
abbrev pub each : {S A : Type 0} → (A → Cmd S (Unit {0})) → List A → Cmd S (Unit {0})
each body [] = pure tt
each body (x ∷ xs) = body x >> each body xs

-- The run ends without a fault, and its result and final state have the property.
abbrev pub Returns : {S A : Type 0} → (A → S → Type 0) → Run S A → Type 0
Returns P (ok a s) = P a s
Returns P (fault e) = ⊥

module _ {S A B : Type 0} where
  pub Returns-and_then :
      (P : A → S → Type 0) (Q : B → S → Type 0) (r : Run S A) (k : A → Cmd S B)
      → Returns P r
      → ((a : A) (s : S) → P a s → Returns Q (k a s))
      → Returns Q (and_then r k)
  Returns-and_then P Q (ok a s) k h next = next a s h
  Returns-and_then P Q (fault e) k h next = h

pub Returns-mono :
    {S A : Type 0} (P Q : A → S → Type 0) (r : Run S A)
    → Returns P r
    → ((a : A) (s : S) → P a s → Q a s)
    → Returns Q r
Returns-mono P Q (ok a s) h f = f a s h
Returns-mono P Q (fault e) h f = h
