-- ===== src/Rows/Keyed.antt =====
-- Lookup and update by primary key.
use gapforge.Common.{
  ℕ, ◌≡◌, ◌≢◌, refl, Option, none, some, List, [], ◌∷◌, ◌++◌, arith, if◌then◌else◌, nat_beq, All,
  Memᴰ, Bool, false, bit, count_if, any, ◌+◌, ◌≤◌, Bool-cases, inl, inr,
}

module _ {ℓ} {A : Type ℓ} (key : A → ℕ) where
  -- `SELECT ... WHERE id = k`
  abbrev pub row : ℕ → List A → Option A
  row k [] = none
  row k (x ∷ xs) = if nat_beq (key x) k then some x else row k xs

  -- `UPDATE ... WHERE id = key r`
  abbrev pub put : A → List A → List A
  put r [] = []
  put r (x ∷ xs) = if nat_beq (key x) (key r) then r ∷ xs else x ∷ put r xs

  -- `DELETE ... WHERE id = k`
  abbrev pub delete : ℕ → List A → List A
  delete k [] = []
  delete k (x ∷ xs) = let rest = delete k xs in if nat_beq (key x) k then rest else x ∷ rest

  pub key-row : (k : ℕ) (xs : List A) (r : A) → row k xs ≡ some r → key r ≡ k
  key-row k [] r h = cc
  key-row k (x ∷ xs) r h = ground (arith, key-row k xs r)

  pub row-put_self :
      (r : A) (xs : List A) (old : A) → row (key r) xs ≡ some old → row (key r) (put r xs) ≡ some r
  row-put_self r [] old h = cc
  row-put_self r (x ∷ xs) old h = ground (arith, row-put_self r xs old)

  pub row-put_ne : (k : ℕ) (r : A) (xs : List A) → k ≢ key r → row k (put r xs) ≡ row k xs
  row-put_ne k r [] h = refl
  row-put_ne k r (x ∷ xs) h = ground (arith, row-put_ne k r xs h)

  pub row-put-none : (k : ℕ) (r : A) (xs : List A) → row k xs ≡ none → row k (put r xs) ≡ none
  row-put-none k r [] h = refl
  row-put-none k r (x ∷ xs) h = ground (arith, row-put-none k r xs)

  pub All-row {κ} :
      (P : A → Type κ) (k : ℕ) (xs : List A) (r : A) → All P xs → row k xs ≡ some r → P r
  All-row P k [] r p h = absurd (cc)
  All-row P k (x ∷ xs) r p h = ground (arith, All-row P k xs r p.1)

  pub All-put {κ} : (P : A → Type κ) (r : A) (xs : List A) → All P xs → P r → All P (put r xs)
  All-put P r [] p h = tt
  All-put P r (x ∷ xs) p h = elim (Bool-cases (nat_beq (key x) (key r))) [
    | inl same ↦ rw same (h, p.1)
    | inr other ↦ rw other (p.0, All-put P r xs p.1 h)
  ]

  pub All-delete {κ} : (P : A → Type κ) (k : ℕ) (xs : List A) → All P xs → All P (delete k xs)
  All-delete P k [] p = tt
  All-delete P k (x ∷ xs) p = elim (Bool-cases (nat_beq (key x) k)) [
    | inl same ↦ rw same (All-delete P k xs p.1)
    | inr other ↦ rw other (p.0, All-delete P k xs p.1)
  ]

  -- An update moves a count by the row that it replaces.
  pub count_if-put :
      (p : A → Bool) (r : A) (xs : List A) (old : A)
      → row (key r) xs ≡ some old
      → count_if p (put r xs) + bit (p old) ≡ count_if p xs + bit (p r)
  count_if-put p r [] old h = absurd (cc)
  count_if-put p r (x ∷ xs) old h = ground (arith, count_if-put p r xs old)

  pub count_if-delete :
      (p : A → Bool) (k : ℕ) (xs : List A) → count_if p (delete k xs) ≤ count_if p xs
  count_if-delete p k [] = omega arith
  count_if-delete p k (x ∷ xs) = ground (arith, count_if-delete p k xs)

  pub row-append_none : (k : ℕ) (xs ys : List A) → row k xs ≡ none → row k (xs ++ ys) ≡ row k ys
  row-append_none k [] ys h = refl
  row-append_none k (x ∷ xs) ys h = ground (arith, row-append_none k xs ys)

  pub row-append_some :
      (k : ℕ) (xs ys : List A) (r : A) → row k xs ≡ some r → row k (xs ++ ys) ≡ some r
  row-append_some k [] ys r h = absurd (cc)
  row-append_some k (x ∷ xs) ys r h = ground (arith, row-append_some k xs ys r)

  -- No two rows have the same primary key.
  abbrev pub IsUnique : List A → Type ℓ
  IsUnique [] = Unit
  IsUnique (x ∷ xs) = (row (key x) xs ≡ none) × IsUnique xs

  pub row_of_mem : (x : A) (xs : List A) → IsUnique xs → Memᴰ x xs → row (key x) xs ≡ some x
  row_of_mem x [] u m = elim m [ ]
  row_of_mem x (y ∷ xs) u (Memᴰ.head e) = rw e (ground arith)
  row_of_mem x (y ∷ xs) u (Memᴰ.tail m) = ground (arith, row_of_mem x xs u.1 m, not_none x y)
    where
      not_none : (x y : A) → key y ≡ key x → row (key y) xs ≡ row (key x) xs
      not_none x y e = rw e

  pub put-IsUnique : (r : A) (xs : List A) → IsUnique xs → IsUnique (put r xs)
  put-IsUnique r [] u = tt
  put-IsUnique r (x ∷ xs) u = elim (Bool-cases (nat_beq (key x) (key r))) [
    | inl same ↦ let e : key x ≡ key r = ground arith in rw same (rw e at u.0, u.1)
    | inr other ↦ rw other (row-put-none (key x) r xs u.0, put-IsUnique r xs u.1)
  ]

  pub append-IsUnique :
      (r : A) (xs : List A) → IsUnique xs → row (key r) xs ≡ none → IsUnique (xs ++ r ∷ [])
  append-IsUnique r [] u h = (refl, tt)
  append-IsUnique r (x ∷ xs) u h = (
    rw (row-append_none (key x) xs (r ∷ []) u.0) (ground arith),
    append-IsUnique r xs u.1 (ground arith),
  )

  pub row-delete-none : (j k : ℕ) (xs : List A) → row j xs ≡ none → row j (delete k xs) ≡ none
  row-delete-none j k [] h = refl
  row-delete-none j k (x ∷ xs) h = ground (arith, row-delete-none j k xs)

  pub delete-IsUnique : (k : ℕ) (xs : List A) → IsUnique xs → IsUnique (delete k xs)
  delete-IsUnique k [] u = tt
  delete-IsUnique k (x ∷ xs) u = elim (Bool-cases (nat_beq (key x) k)) [
    | inl same ↦ rw same (delete-IsUnique k xs u.1)
    | inr other ↦ rw other (row-delete-none (key x) k xs u.0, delete-IsUnique k xs u.1)
  ]

  -- A row that was not there goes without a trace.
  pub delete-none : (k : ℕ) (xs : List A) → row k xs ≡ none → delete k xs ≡ xs
  delete-none k [] h = refl
  delete-none k (x ∷ xs) h = ground (arith, delete-none k xs)

  pub delete-append_self :
      (r : A) (xs : List A) → row (key r) xs ≡ none → delete (key r) (xs ++ r ∷ []) ≡ xs
  delete-append_self r [] h = ground arith
  delete-append_self r (x ∷ xs) h = ground (arith, delete-append_self r xs)

  -- A test that some row passes: after an update that keeps it, and after the removal of a row that
  -- does not pass it.
  pub any-put :
      (p : A → Bool) (r : A) (xs : List A) (old : A)
      → row (key r) xs ≡ some old
      → p r ≡ p old
      → any p (put r xs) ≡ any p xs
  any-put p r [] old h e = refl
  any-put p r (x ∷ xs) old h e = ground (arith, any-put p r xs old)

  pub any-delete :
      (p : A → Bool) (k : ℕ) (xs : List A) (gone : A)
      → IsUnique xs
      → row k xs ≡ some gone
      → p gone ≡ false
      → any p (delete k xs) ≡ any p xs
  any-delete p k [] gone u h e = refl
  any-delete p k (x ∷ xs) gone u h e = elim (Bool-cases (nat_beq (key x) k)) [
    | inl same ↦
        let id : key x ≡ k = ground (arith, same) in
        let rest : delete k xs ≡ xs = delete-none k xs (rw id at u.0) in
        ground (arith, h, e, same, rest)
    | inr other ↦ ground (arith, any-delete p k xs gone u.1, h, e, other)
  ]
