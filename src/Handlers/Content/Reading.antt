-- ===== src/Handlers/Content/Reading.antt =====
-- The bytes of a description, as `rstrins` writes them and `fuse_read` copies them.
use Prim.Native.Nat.{min}
use ical_fs.Base.{
  ℕ, zero, suc, ◌+◌, ◌-◌, ◌≤◌, ◌≡◌, refl, sym, ap, ◌∙◌, inl, inr, Bytes, [], ◌∷◌, ◌++◌, arith,
  length, take, drop, length-append, length-take, length-drop, take-length, drop-length, ◌==◌,
  Lacks, All-append, Bool-cases,
}
use ical_fs.Handlers.Content.{c_string, rstrins, read_bytes}

c_string-Lacks : (s : Bytes) → Lacks 0 s → c_string s ≡ s
c_string-Lacks [] h = refl
c_string-Lacks (c ∷ s) (ne, h) = ground (arith, c_string-Lacks s h)

pub c_string_clean : (s : Bytes) → Lacks 0 (c_string s)
c_string_clean [] = tt
c_string_clean (c ∷ s) = elim (Bool-cases (c == 0)) [
  | inl end ↦ rw (end, c_string) tt
  | inr more ↦ rw (more, c_string) (ground arith, c_string_clean s)
]

take-Lacks : (n : ℕ) (s : Bytes) → Lacks 0 s → Lacks 0 (take n s)
take-Lacks zero s h = tt
take-Lacks (suc n) [] h = tt
take-Lacks (suc n) (c ∷ s) (ne, h) = (ne, take-Lacks n s h)

take_all : (n : ℕ) (s : Bytes) → length s ≤ n → take n s ≡ s
take_all zero [] h = refl
take_all zero (c ∷ s) h = absurd (omega arith)
take_all (suc n) [] h = refl
take_all (suc n) (c ∷ s) h = ap (λ t. c ∷ t) (take_all n s (omega arith))

drop_all : (n : ℕ) (s : Bytes) → length s ≤ n → drop n s ≡ []
drop_all zero [] h = refl
drop_all zero (c ∷ s) h = absurd (omega arith)
drop_all (suc n) [] h = refl
drop_all (suc n) (c ∷ s) h = drop_all n s (omega arith)

take_nil : (n : ℕ) → ◌≡◌ {A = Bytes} (take n []) []
take_nil zero = refl
take_nil (suc n) = refl

take-plus : (a b : ℕ) (s : Bytes) → take (a + b) s ≡ take a s ++ take b (drop a s)
take-plus zero b s = ap (λ n. take n s) (omega arith)
take-plus (suc a) b [] = ground (arith, take_nil (suc a + b), take_nil b)
take-plus (suc a) b (c ∷ s) =
    let shift : suc a + b ≡ suc (a + b) = omega arith in
    ap (λ n. take n (c ∷ s)) shift ∙ ap (λ t. c ∷ t) (take-plus a b s)

drop_nil : (n : ℕ) → ◌≡◌ {A = Bytes} (drop n []) []
drop_nil zero = refl
drop_nil (suc n) = refl

drop-plus : (a b : ℕ) (s : Bytes) → drop (a + b) s ≡ drop b (drop a s)
drop-plus zero b s = ap (λ n. drop n s) (omega arith)
drop-plus (suc a) b [] = ground (arith, drop_nil (suc a + b), drop_nil b)
drop-plus (suc a) b (c ∷ s) =
    let shift : suc a + b ≡ suc (a + b) = omega arith in
    ap (λ n. drop n (c ∷ s)) shift ∙ drop-plus a b s

-- What is read: the bytes from the offset on, as many as asked for and there are.
read_bytes-take :
    (d : Bytes) (size offset : ℕ) → read_bytes d size offset ≡ take size (drop offset d)
unfolding read_bytes
read_bytes-take d size offset = ground (
  arith,
  drop_all offset d,
  take_all size (drop offset d),
  take_all (length d - offset) (drop offset d),
  length-drop offset d,
)

-- A read gives as many bytes as are asked for, or as are left behind the offset if they are fewer.
-- What two reads give, the second from where the first was to end, is what one read of both sizes
-- gives.
pub read_bytes_chunks :
    (d : Bytes) (a b offset : ℕ)
    → (length (read_bytes d a offset) ≡ min a (length d - offset))
      × (read_bytes d (a + b) offset ≡ read_bytes d a offset ++ read_bytes d b (offset + a))
read_bytes_chunks d a b offset = (
  rw (read_bytes-take d a offset, length-take, length-drop) refl,
  rw
      (
        read_bytes-take d (a + b) offset,
        read_bytes-take d a offset,
        read_bytes-take d b (offset + a),
        drop-plus offset a d,
      )
      (take-plus a b (drop offset d)),
)

rstrins-take :
    (old : Bytes) (offset : ℕ) (buf : Bytes) → rstrins old offset buf ≡ take offset old ++ buf
unfolding rstrins
rstrins-take old offset buf = ground (arith, take_all offset old, take_all (length old) old)

-- Into an old description, bytes are written within it or at its end, and neither has a
-- terminator: they are read back from where they were written, before them stands what stood
-- there, and nothing is left behind them.
pub read_bytes-rstrins :
    (old buf : Bytes) (offset : ℕ)
    → Lacks 0 old
    → Lacks 0 buf
    → offset ≤ length old
    → let new = c_string (rstrins old offset buf) in
      (read_bytes new (length buf) offset ≡ buf)
      × (read_bytes new offset 0 ≡ read_bytes old offset 0)
      × (length new ≡ offset + length buf)
read_bytes-rstrins old buf offset lo lb within =
    let head = take offset old in
    let sized : length head ≡ offset = omega (arith, length-take offset old) in
    let new : c_string (rstrins old offset buf) ≡ head ++ buf =
      rw (rstrins-take old offset buf)
        (c_string-Lacks (head ++ buf) (All-append _ head buf (take-Lacks offset old lo) lb)) in
    (
      rw (new, read_bytes-take (head ++ buf) (length buf) offset)
          (ap (λ n. take (length buf) (drop n (head ++ buf))) (sym sized)
            ∙ (ap (take (length buf)) (drop-length head buf)
                ∙ take_all (length buf) buf (omega arith))),
      rw (new, read_bytes-take (head ++ buf) offset 0, read_bytes-take old offset 0)
          (ap (λ n. take n (head ++ buf)) (sym sized) ∙ take-length head buf),
      rw (new, length-append head buf, sized) refl,
    )
