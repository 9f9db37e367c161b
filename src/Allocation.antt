-- ===== src/Allocation.antt =====
-- util.c: the sizes that the allocation of an array asks for. What `realloc` gives for a size is a
-- parameter; `size_t` has 64 bits.
use native.Mathlib.Nat.{div-lt_iff_lt-mul, mod-eq_of_lt, mul_comm}
use ical_fs.Base.{
  ℕ, zero, ◌-◌, ◌*◌, ◌/◌, ◌%◌, ◌^◌, ◌<◌, ◌≤◌, ◌≡◌, ◌↔◌, ◌⊎◌, refl, ap, ◌∙◌, inl, inr, true, false,
  ◌&&◌, Option, none, some, arith, ltb, if◌then◌else◌, Bool-cases,
}

abbrev pub size_max : ℕ
size_max = 2 ^ 64 - 1

-- The size wraps around where it does not fit.
unfoldable pub reallocarray : {B : Type 0} → (ℕ → Option B) → ℕ → ℕ → Option B
reallocarray realloc n m =
    if ltb 0 n && ltb (size_max / n) m then none else realloc ((n * m) % 2 ^ 64)

-- What comes back, or the exit of the program.
pub data Allocated (B : Type 0) : Type 0 where
  returned : Option B → Allocated B
  exited : Allocated B

-- `if (!buf && n && m) exit(1);`
abbrev checked : {B : Type 0} → ℕ → ℕ → Option B → Allocated B
checked n m (some buf) = returned (some buf)
checked n m none = if ltb 0 n && ltb 0 m then exited else returned none

unfoldable pub xreallocarray : {B : Type 0} → (ℕ → Option B) → ℕ → ℕ → Allocated B
xreallocarray realloc n m = checked n m (reallocarray realloc n m)

same_tests : (a b c d : ℕ) → (a < b ↔ c < d) → ltb a b ≡ ltb c d
same_tests a b c d same = ground arith

not_less : (a b : ℕ) → ltb a b ≡ false → b ≤ a
not_less a b h = ground arith

less : (a b : ℕ) → ltb a b ≡ true → a < b
less a b h = ground arith

within : (a : ℕ) → a ≤ size_max → a < 2 ^ 64
within a h = omega arith

none_left : (n : ℕ) → ltb 0 n ≡ false → n ≡ 0
none_left n h = ground arith

too_large : (n m : ℕ) → zero < n → ltb (size_max / n) m ≡ ltb size_max (m * n)
too_large n m some_elements =
    same_tests (size_max / n) m size_max (m * n)
      (div-lt_iff_lt-mul {k = n} {x = size_max} {y = m} some_elements)

-- For an array, exactly the sizes of 2^64 bytes or more are refused, whatever `realloc` does, and
-- every other size is asked for as it is, without a wrap.
pub reallocarray-exact :
    {B : Type 0} (realloc : ℕ → Option B) (n m : ℕ)
    → reallocarray realloc n m ≡ (if ltb size_max (m * n) then none else realloc (m * n))
unfolding reallocarray
reallocarray-exact realloc n m = elim (Bool-cases (ltb 0 n)) [
  | inl some_elements ↦ elim (Bool-cases (ltb size_max (m * n))) [
    | inl large ↦ rw (some_elements, too_large n m (less 0 n some_elements) ∙ large, large) refl
    | inr small ↦
        let fits : n * m < 2 ^ 64 =
          rw (mul_comm n m) (within (m * n) (not_less size_max (m * n) small)) in
        rw (some_elements, too_large n m (less 0 n some_elements) ∙ small, small)
          (ap realloc (mod-eq_of_lt fits ∙ mul_comm n m))
  ]
  | inr empty ↦
      let left : 0 * m ≡ 0 = omega arith in
      let right : m * 0 ≡ 0 = omega arith in rw (none_left n empty, left, right) refl
]

-- The program exits exactly if there are bytes to allocate, and they are too many for a size or
-- `realloc` has none.
pub xreallocarray-exits :
    {B : Type 0} (realloc : ℕ → Option B) (n m : ℕ)
    → (xreallocarray realloc n m ≡ exited)
      ↔ ((0 < n) × (0 < m) × ((size_max < m * n) ⊎ (realloc (m * n) ≡ none)))
unfolding xreallocarray
xreallocarray-exits realloc n m =
    rw (reallocarray-exact realloc n m) (exits size_max n m (m * n) (realloc (m * n)))
  where
    exits :
        {B : Type 0} (most n m size : ℕ) (given : Option B)
        → (checked n m (if ltb most size then none else given) ≡ exited)
          ↔ ((0 < n) × (0 < m) × ((most < size) ⊎ (given ≡ none)))
    exits most n m size none = ground arith
    exits most n m size (some buf) = ground arith
