-- ===== src/Common/Lists.antt =====
-- Lists measured by native numbers, predicates on them, and the loops of Python's built-ins.
use Prim.Native.Nat.{ℕ, zero, suc, ◌+◌}
use mathlib.Core.Path.{◌≡◌, refl, sym, subst}
use mathlib.Core.Logic.{inl, inr}
use mathlib.Core.Bool.{Bool, true, false, ◌&&◌, ◌||◌}
use mathlib.Core.Option.{Option, none, some}
use mathlib.Core.List.{List, [], ◌∷◌, ◌++◌, Memᴰ}
use native.Mathlib.Omega.{arith}
use gapforge.Common.Tests.{bit, if◌then◌else◌, Bool-cases}

module _ {ℓ} {A : Type ℓ} where
  abbrev pub length : List A → ℕ
  length [] = 0
  length (_ ∷ xs) = suc (length xs)

  abbrev pub take : ℕ → List A → List A
  take zero _ = []
  take (suc n) [] = []
  take (suc n) (x ∷ xs) = x ∷ take n xs

  -- `[x for x in xs if p(x)]`
  abbrev pub select : (A → Bool) → List A → List A
  select p [] = []
  select p (x ∷ xs) = let rest = select p xs in if p x then x ∷ rest else rest

  -- `sum(p(x) for x in xs)` for a test
  abbrev pub count_if : (A → Bool) → List A → ℕ
  count_if p [] = 0
  count_if p (x ∷ xs) = bit (p x) + count_if p xs

  -- `any(p(x) for x in xs)`
  abbrev pub any : (A → Bool) → List A → Bool
  any p [] = false
  any p (x ∷ xs) = p x || any p xs

  -- `all(p(x) for x in xs)`
  abbrev pub every : (A → Bool) → List A → Bool
  every p [] = true
  every p (x ∷ xs) = p x && every p xs

  -- The first that passes.
  abbrev pub find : (A → Bool) → List A → Option A
  find p [] = none
  find p (x ∷ xs) = if p x then some x else find p xs

  -- `xs[-1]`
  abbrev pub last? : List A → Option A
  last? [] = none
  last? (x ∷ []) = some x
  last? (x ∷ y ∷ xs) = last? (y ∷ xs)

  abbrev pub All {κ} : (A → Type κ) → List A → Type κ
  All P [] = Unit
  All P (x ∷ xs) = P x × All P xs

  pub All-map {κ μ} :
      {P : A → Type κ} {Q : A → Type μ} (xs : List A) → ((x : A) → P x → Q x) → All P xs → All Q xs
  All-map [] f h = tt
  All-map (x ∷ xs) f h = (f x h.0, All-map xs f h.1)

  pub All_mem {κ} : (P : A → Type κ) (x : A) (xs : List A) → All P xs → Memᴰ x xs → P x
  All_mem P x [] h m = elim m [ ]
  All_mem P x (y ∷ xs) h (Memᴰ.head e) = subst P (sym e) h.0
  All_mem P x (y ∷ xs) h (Memᴰ.tail m) = All_mem P x xs h.1 m

  pub All-append {κ} : (P : A → Type κ) (xs ys : List A) → All P xs → All P ys → All P (xs ++ ys)
  All-append P [] ys p q = q
  All-append P (x ∷ xs) ys p q = (p.0, All-append P xs ys p.1 q)

  pub count_if-append :
      (p : A → Bool) (xs ys : List A) → count_if p (xs ++ ys) ≡ count_if p xs + count_if p ys
  count_if-append p [] ys = omega arith
  count_if-append p (x ∷ xs) ys = omega (arith, count_if-append p xs ys)

  pub find_holds : (p : A → Bool) (xs : List A) (x : A) → find p xs ≡ some x → p x ≡ true
  find_holds p [] x h = absurd (cc)
  find_holds p (y ∷ xs) x h = elim (Bool-cases (p y)) [
    | inl e ↦ ground arith
    | inr e ↦ find_holds p xs x (ground arith)
  ]

  pub find-none : (p : A → Bool) (xs : List A) → find p xs ≡ none → count_if p xs ≡ 0
  find-none p [] h = refl
  find-none p (y ∷ xs) h = ground (arith, find-none p xs)

  pub find-append_some :
      (p : A → Bool) (xs ys : List A) (x : A) → find p xs ≡ some x → find p (xs ++ ys) ≡ some x
  find-append_some p [] ys x h = absurd (cc)
  find-append_some p (y ∷ xs) ys x h = ground (arith, find-append_some p xs ys x)

  pub find-append_none :
      (p : A → Bool) (xs ys : List A) → find p xs ≡ none → find p (xs ++ ys) ≡ find p ys
  find-append_none p [] ys h = refl
  find-append_none p (y ∷ xs) ys h = ground (arith, find-append_none p xs ys)

  pub any-append :
      (p : A → Bool) (xs : List A) (r : A) → any p xs ≡ true → any p (xs ++ r ∷ []) ≡ true
  any-append p [] r h = absurd (cc)
  any-append p (x ∷ xs) r h = ground (arith, any-append p xs r)

  pub any-append_self :
      (p : A → Bool) (xs : List A) (r : A) → p r ≡ true → any p (xs ++ r ∷ []) ≡ true
  any-append_self p [] r h = ground arith
  any-append_self p (x ∷ xs) r h = ground (arith, any-append_self p xs r)
