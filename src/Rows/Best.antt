-- ===== src/Rows/Best.antt =====
-- `ORDER BY ... LIMIT 1`, and Python's `min` by a key. Among rows that the order does not tell
-- apart the first is taken: PostgreSQL leaves that choice open.
use gapforge.Common.{
  ◌≡◌, refl, subst, Bool, true, false, not, ◌&&◌, ◌||◌, Option, none, some, List, [], ◌∷◌, arith,
  if◌then◌else◌, All, All-map, Memᴰ, Bool-cases, Option-cases, inl, inr,
}

module _ {ℓ} {A : Type ℓ} (before : A → A → Bool) where
  abbrev pub pick : A → Option A → A
  pick x none = x
  pick x (some y) = if before y x then y else x

  abbrev pub best : List A → Option A
  best [] = none
  best (x ∷ xs) = some (pick x (best xs))

  abbrev pub IsTransitive : Type ℓ
  IsTransitive = (x y z : A) → before y x ≡ false → before z y ≡ false → before z x ≡ false

  abbrev pub IsAsymmetric : Type ℓ
  IsAsymmetric = (x y : A) → before y x ≡ true → before x y ≡ false

  pub best-none : (xs : List A) → best xs ≡ none → xs ≡ []
  best-none [] h = refl
  best-none (x ∷ xs) h = absurd (cc)

  pub best-Memᴰ : (xs : List A) (r : A) → best xs ≡ some r → Memᴰ r xs
  best-Memᴰ [] r h = absurd (cc)
  best-Memᴰ (x ∷ xs) r h = elim (Option-cases (best xs)) [
    | inl e ↦ Memᴰ.head (ground arith)
    | inr (y, e) ↦ elim (Bool-cases (before y x)) [
      | inl earlier ↦ Memᴰ.tail (best-Memᴰ xs r (ground arith))
      | inr later ↦ Memᴰ.head (ground arith)
    ]
  ]

  abbrev First : List A → A → Type 0
  First xs r = All (λ z. before z r ≡ false) xs

  -- Nothing in the list stands before the one that is taken.
  pub best_first :
      IsTransitive
      → IsAsymmetric
      → (xs : List A) (r : A) → best xs ≡ some r
      → All (λ z. before z r ≡ false) xs
  best_first trans asym [] r h = tt
  best_first trans asym (x ∷ xs) r h = elim (Option-cases (best xs)) [
    | inl e ↦ subst (First (x ∷ xs)) (taken e) (rw (best-none xs e) (ground (arith, asym x x), tt))
    | inr (y, e) ↦ elim (Bool-cases (before y x)) [
      | inl earlier ↦
          let same : y ≡ r = ground arith in
          subst (First (x ∷ xs)) same (asym x y earlier, best_first trans asym xs y e)
      | inr later ↦
          let same : x ≡ r = ground arith in
          subst (First (x ∷ xs)) same (
            ground (arith, asym x x),
            All-map xs (λ z. trans x y z later) (best_first trans asym xs y e),
          )
    ]
  ]
    where
      taken : best xs ≡ none → x ≡ r
      taken e = ground arith

-- ORDER BY one test, then by another.
abbrev pub lex {ℓ} : {A : Type ℓ} → (A → A → Bool) → (A → A → Bool) → A → A → Bool
lex f g a b = f a b || not (f b a) && g a b

module _ {ℓ} {A : Type ℓ} (f g : A → A → Bool) where
  pub lex-IsTransitive : IsTransitive f → IsAsymmetric f → IsTransitive g → IsTransitive (lex f g)
  lex-IsTransitive tf af tg x y z h k =
      ground (arith, tf x y z, tf y z x, tf z x y, tg x y z, af x y, af y z)

  pub lex-IsAsymmetric : IsAsymmetric f → IsAsymmetric g → IsAsymmetric (lex f g)
  lex-IsAsymmetric af ag x y h = ground (arith, af x y, af y x, ag x y)
