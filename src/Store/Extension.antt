-- ===== src/Store/Extension.antt =====
-- `set_file_extension`: what becomes of the default extension.
use ical_fs.Base.{
  ◌+◌, ◌≤◌, ◌≡◌, ℕ, refl, ◌≢◌, ◌↔◌, Bytes, ◌∷◌, arith, length, length-take, ltb, ◌==◌, Returns, inl,
  inr, Bool-cases,
}
use ical_fs.HashMap.{HashMap}
use ical_fs.Store.{Mount, set_file_extension, buffer_size}

-- For an extension that is not empty, the buffer holds at most 255 bytes, if it did before.
-- Nothing has changed unless the result is 0; it is 1 exactly for an extension that starts with a
-- dot, and 2 exactly for any other of more than 256 bytes.
pub set_file_extension-bounded :
    {M : HashMap} (c : ℕ) (e : Bytes) (s : Mount M)
    → length s.file_extension + 1 ≤ buffer_size
    → Returns
        (λ r s'.
          (length s'.file_extension + 1 ≤ buffer_size)
          × ((r ≡ 1) ↔ (c ≡ b'.'))
          × ((r ≡ 2) ↔ ((c ≢ b'.') × (buffer_size + 1 ≤ length (c ∷ e))))
          × (r ≢ 0 → s' ≡ s))
        (set_file_extension (c ∷ e) s)
unfolding set_file_extension
set_file_extension-bounded c e s within = elim (Bool-cases (c == b'.')) [
  | inl dot ↦ rw dot (within, ground arith, ground arith, λ ne. refl)
  | inr plain ↦ elim (Bool-cases (ltb buffer_size (length (c ∷ e)))) [
    | inl long ↦ rw (plain, long) (within, ground arith, ground arith, λ ne. refl)
    | inr short ↦
        rw (plain, short)
          (
            omega (arith, length-take 255 (c ∷ e)),
            ground arith,
            ground arith,
            λ ne. absurd (ne refl),
          )
  ]
]
