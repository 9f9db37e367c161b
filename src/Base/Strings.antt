-- ===== src/Base/Strings.antt =====
-- A C string is the list of its bytes before the terminator. What the program takes from the C
-- library by value (`strcmp`, `strlen`, `strcat`-like formatting) is a function on these lists.
use Prim.Native.Char.{code}
use Prim.Native.String.{String}
use Prim.Native.Nat.{ℕ, ◌+◌}
use mathlib.Core.Path.{◌≡◌, refl}
use mathlib.Core.Logic.{◌≢◌, ◌↔◌}
use mathlib.Core.Bool.{Bool, true, false, ◌&&◌, ◌||◌}
use mathlib.Core.List.{List, [], ◌∷◌}
use native.Mathlib.Omega.{arith}
use ical_fs.Base.Bools.{◌==◌, leb, if◌then◌else◌}
use ical_fs.Base.Lists.{All}

abbrev pub Bytes : Type 0
Bytes = List ℕ

-- The bytes of a literal, which is ASCII wherever the program writes one.
abbrev pub codes : String → Bytes
codes String.[] = []
codes (String.◌∷◌ c s) = code c ∷ codes s

-- `strcmp(a, b) == 0`
unfoldable pub str_eq : Bytes → Bytes → Bool
str_eq [] [] = true
str_eq (x ∷ xs) (y ∷ ys) = (x == y) && str_eq xs ys
str_eq _ _ = false

pub str_eq_iff : (a b : Bytes) → (str_eq a b ≡ true) ↔ (a ≡ b)
unfolding str_eq
str_eq_iff [] [] = (λ h. refl, λ h. refl)
str_eq_iff [] (y ∷ ys) = (λ h. cc, λ h. cc)
str_eq_iff (x ∷ xs) [] = (λ h. cc, λ h. cc)
str_eq_iff (x ∷ xs) (y ∷ ys) = ground (arith, str_eq_iff xs ys)

pub str_eq_refl : (a : Bytes) → str_eq a a ≡ true
str_eq_refl a = (str_eq_iff a a).1 refl

pub str_eq_ne : (a b : Bytes) → a ≢ b → str_eq a b ≡ false
str_eq_ne a b h = ground (arith, str_eq_iff a b)

-- The string does not hold the byte.
abbrev pub Lacks : ℕ → Bytes → Type 0
Lacks b = All (λ c. c ≢ b)

-- `starts_with_str`, which compares the first `strlen(prefix)` bytes.
unfoldable pub starts_with_str : Bytes → Bytes → Bool
starts_with_str str [] = true
starts_with_str [] (p ∷ prefix) = false
starts_with_str (c ∷ str) (p ∷ prefix) = (c == p) && starts_with_str str prefix

-- `strstr(s, needle) != NULL`
unfoldable pub strstr : Bytes → Bytes → Bool
unfolding starts_with_str
strstr [] needle = starts_with_str [] needle
strstr (c ∷ s) needle = starts_with_str (c ∷ s) needle || strstr s needle

abbrev pub to_lower : ℕ → ℕ
to_lower c = if leb b'A' c && leb c b'Z' then c + 32 else c

-- `strcasecmp(a, b) == 0`
unfoldable pub strcasecmp_eq : Bytes → Bytes → Bool
strcasecmp_eq [] [] = true
strcasecmp_eq (x ∷ xs) (y ∷ ys) = (to_lower x == to_lower y) && strcasecmp_eq xs ys
strcasecmp_eq _ _ = false
