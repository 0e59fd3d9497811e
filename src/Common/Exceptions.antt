-- ===== src/Common/Exceptions.antt =====
-- Python exceptions as values. A model keeps the class that is raised, by which the program
-- catches it, and not its message.
use mathlib.Core.Path.{◌≡◌, refl}
use mathlib.Core.Bool.{Bool, true, false}

pub data Exn : Type 0 where
  value_error type_error lookup_error permission_error runtime_error integrity_error : Exn
  overflow_error : Exn

pub data Result {ℓ} (A : Type ℓ) : Type ℓ where
  err : Exn → Result A
  ok : A → Result A

-- `if test: raise exception`
abbrev pub raise_if : Bool → Exn → Result (Unit {0})
raise_if false exception = ok tt
raise_if true exception = err exception

-- One statement after another: the first exception ends the chain.
module _ {ℓ κ} {A : Type ℓ} {B : Type κ} where
  infixl 5 ◌>>=◌
  abbrev pub ◌>>=◌ : Result A → (A → Result B) → Result B
  err exception >>= next = err exception
  ok value >>= next = next value

  -- A chain that succeeds has succeeded at each link.
  pub >>=-eq-ok :
      (first : Result A) (next : A → Result B) (final : B)
      → (first >>= next) ≡ ok final
      → (value : A) × (first ≡ ok value) × (next value ≡ ok final)
  >>=-eq-ok (err exception) next final h = absurd (cc)
  >>=-eq-ok (ok value) next final h = (value, refl, h)

module _ {κ} {B : Type κ} where
  infixl 5 ◌>>◌
  abbrev pub ◌>>◌ : Result (Unit {0}) → Result B → Result B
  check >> rest = check >>= (λ _. rest)

-- A guard that lets a chain succeed has not fired.
pub raise_if-eq-ok {κ} :
    {B : Type κ} (test : Bool) (e : Exn) (rest : Result B) (b : B)
    → (raise_if test e >> rest) ≡ ok b
    → (test ≡ false) × (rest ≡ ok b)
raise_if-eq-ok true e rest b h = absurd (cc)
raise_if-eq-ok false e rest b h = (refl, h)
