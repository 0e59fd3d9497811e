-- ===== src/Semantic/References.antt =====
-- The references and the texts of an output, told apart from the code that collects them.
use mathlib.Core.List.Memᴰ.{append_left, append_right}
use gapforge.Common.{
  ◌≡◌, refl, String, Bool, true, false, ◌||◌, &&-eq-true, List, [], ◌∷◌, ◌++◌, Memᴰ, ◌==◌,
  string_eq, arith, any, every, Bool-cases, inl, inr,
}
use gapforge.Common.Text.{contains}
use gapforge.Json.{Json, Items, Fields, Key, text, array, object, cons, field, name, foreign}
use gapforge.Semantic.Boundary.{
  item_strings, strings_if, collect_references, item_references, field_references, all_permitted,
  contains_secret, items_contain_secret, fields_contain_secret,
}

pub data AmongItems (s : String) : Items → Type 0 where
  first : {vs : Items} → AmongItems s (cons (text s) vs)
  after : {v : Json} {vs : Items} → AmongItems s vs → AmongItems s (cons v vs)

-- A text is referred to by a value: under a key that names references, at any depth, it stands as the
-- value or in the list that is the value.
mutual
  pub data Refers (names : Key → Bool) (s : String) : Json → Type 0 where
    by_object : {fs : Fields} → RefersField names s fs → Refers names s (object fs)
    by_array : {vs : Items} → RefersItem names s vs → Refers names s (array vs)

  pub data RefersItem (names : Key → Bool) (s : String) : Items → Type 0 where
    by_first : {v : Json} {vs : Items} → Refers names s v → RefersItem names s (cons v vs)
    by_later : {v : Json} {vs : Items} → RefersItem names s vs → RefersItem names s (cons v vs)

  pub data RefersField (names : Key → Bool) (s : String) : Fields → Type 0 where
    as_value : {k : Key} {fs : Fields} → names k ≡ true → RefersField names s (field k (text s) fs)
    as_item :
        {k : Key} {vs : Items} {fs : Fields}
        → names k ≡ true
        → AmongItems s vs
        → RefersField names s (field k (array vs) fs)
    within_value :
        {k : Key} {v : Json} {fs : Fields} → Refers names s v → RefersField names s (field k v fs)
    further :
        {k : Key} {v : Json} {fs : Fields}
        → RefersField names s fs
        → RefersField names s (field k v fs)

item_strings-AmongItems : (s : String) (vs : Items) → AmongItems s vs → Memᴰ s (item_strings vs)
item_strings-AmongItems s vs first = Memᴰ.head refl
item_strings-AmongItems s vs (after {vs = rest} m) = Memᴰ.tail (item_strings-AmongItems s rest m)

-- Every text that is referred to is collected.
module _ (names : Key → Bool) (s : String) where
  mutual
    unfolding collect_references item_references field_references

    pub collect_references-Refers :
        (v : Json) → Refers names s v → Memᴰ s (collect_references names v)
    collect_references-Refers v (by_object {fs = fs} m) = field_references-Refers fs m
    collect_references-Refers v (by_array {vs = vs} m) = item_references-Refers vs m

    item_references-Refers :
        (vs : Items) → RefersItem names s vs → Memᴰ s (item_references names vs)
    item_references-Refers _ (by_first {v = v} {vs = vs} m) =
        append_left (item_references names vs) (collect_references-Refers v m)
    item_references-Refers _ (by_later {v = v} {vs = vs} m) =
        append_right (collect_references names v) (item_references-Refers vs m)

    field_references-Refers :
        (fs : Fields) → RefersField names s fs → Memᴰ s (field_references names fs)
    field_references-Refers _ (as_value {k = k} {fs = fs} e) = rw e (Memᴰ.head refl)
    field_references-Refers _ (as_item {k = k} {vs = vs} {fs = fs} e m) = rw e (
        append_left (field_references names fs)
          (append_left (item_references names vs) (item_strings-AmongItems s vs m)))
    field_references-Refers _ (within_value {k = k} {v = v} {fs = fs} m) =
        append_left (field_references names fs)
          (append_right (strings_if (names k) v) (collect_references-Refers v m))
    field_references-Refers _ (further {k = k} {v = v} {fs = fs} m) =
        append_right (strings_if (names k) v ++ collect_references names v)
          (field_references-Refers fs m)

Memᴰ-any : (x : String) (allowed : List String) → any (λ y. x == y) allowed ≡ true → Memᴰ x allowed
Memᴰ-any x [] h = absurd (cc)
Memᴰ-any x (y ∷ ys) h = elim (Bool-cases (x == y)) [
  | inl same ↦ Memᴰ.head ((string_eq.agree_iff x y).0 same)
  | inr differs ↦ Memᴰ.tail (Memᴰ-any x ys (rw differs at h))
]

every-Memᴰ {ℓ} :
    {A : Type ℓ} (p : A → Bool) (x : A) (xs : List A) → every p xs ≡ true → Memᴰ x xs → p x ≡ true
every-Memᴰ p x [] h m = elim m [ ]
every-Memᴰ p x (y ∷ ys) h (Memᴰ.head e) = rw e (&&-eq-true (p y) (every p ys) h).0
every-Memᴰ p x (y ∷ ys) h (Memᴰ.tail m) = every-Memᴰ p x ys (&&-eq-true (p y) (every p ys) h).1 m

-- Where all that is collected is allowed, what is referred to is allowed.
pub all_permitted-Refers :
    (names : Key → Bool) (v : Json) (allowed : List String)
    → all_permitted (collect_references names v) allowed ≡ true
    → (s : String) → Refers names s v
    → Memᴰ s allowed
all_permitted-Refers names v allowed h s m = Memᴰ-any s allowed (
    every-Memᴰ (λ x. any (λ y. x == y) allowed) s (collect_references names v) h
      (collect_references-Refers names s v m))

-- A text of a value: one that stands in it at any depth, or one of its keys.
mutual
  pub data TextOf (s : String) : Json → Type 0 where
    itself : TextOf s (text s)
    of_object : {fs : Fields} → TextOfField s fs → TextOf s (object fs)
    of_array : {vs : Items} → TextOfItem s vs → TextOf s (array vs)

  pub data TextOfItem (s : String) : Items → Type 0 where
    of_first : {v : Json} {vs : Items} → TextOf s v → TextOfItem s (cons v vs)
    of_later : {v : Json} {vs : Items} → TextOfItem s vs → TextOfItem s (cons v vs)

  pub data TextOfField (s : String) : Fields → Type 0 where
    key : {v : Json} {fs : Fields} → TextOfField s (field (name s) v fs)
    of_value : {k : Key} {v : Json} {fs : Fields} → TextOf s v → TextOfField s (field k v fs)
    of_further :
        {k : Key} {v : Json} {fs : Fields} → TextOfField s fs → TextOfField s (field k v fs)

any-Memᴰ {ℓ} :
    {A : Type ℓ} (p : A → Bool) (x : A) (xs : List A) → any p xs ≡ false → Memᴰ x xs → p x ≡ false
any-Memᴰ p x [] h m = elim m [ ]
any-Memᴰ p x (y ∷ ys) h (Memᴰ.head e) = rw e (ground (arith, h))
any-Memᴰ p x (y ∷ ys) h (Memᴰ.tail m) = any-Memᴰ p x ys (ground (arith, h)) m

||-eq-false : (a b : Bool) → (a || b) ≡ false → (a ≡ false) × (b ≡ false)
||-eq-false a b h = ground arith

-- No text of a value without secrets contains one.
module _ (secrets : List String) (s secret : String) (known : Memᴰ secret secrets) where
  mutual
    unfolding contains_secret items_contain_secret fields_contain_secret

    pub contains_secret-TextOf :
        (v : Json) → contains_secret secrets v ≡ false → TextOf s v → contains secret s ≡ false
    contains_secret-TextOf _ h itself = any-Memᴰ (λ x. contains x s) secret secrets h known
    contains_secret-TextOf _ h (of_object {fs = fs} m) = fields_contain_secret-TextOf fs h m
    contains_secret-TextOf _ h (of_array {vs = vs} m) = items_contain_secret-TextOf vs h m

    items_contain_secret-TextOf :
        (vs : Items)
        → items_contain_secret secrets vs ≡ false
        → TextOfItem s vs
        → contains secret s ≡ false
    items_contain_secret-TextOf _ h (of_first {v = v} {vs = vs} m) =
        contains_secret-TextOf v
          (||-eq-false (contains_secret secrets v) (items_contain_secret secrets vs) h).0 m
    items_contain_secret-TextOf _ h (of_later {v = v} {vs = vs} m) =
        items_contain_secret-TextOf vs
          (||-eq-false (contains_secret secrets v) (items_contain_secret secrets vs) h).1 m

    fields_contain_secret-TextOf :
        (fs : Fields)
        → fields_contain_secret secrets fs ≡ false
        → TextOfField s fs
        → contains secret s ≡ false
    fields_contain_secret-TextOf _ h (key {v = v} {fs = fs}) =
        any-Memᴰ (λ x. contains x s) secret secrets
          (||-eq-false (any (λ x. contains x s) secrets)
            (contains_secret secrets v || fields_contain_secret secrets fs) h).0
          known
    fields_contain_secret-TextOf (field (name k) _ _) h (of_value {v = v} {fs = fs} m) =
        let rest =
          (||-eq-false (any (λ x. contains x k) secrets)
            (contains_secret secrets v || fields_contain_secret secrets fs) h).1 in
        contains_secret-TextOf v
          (||-eq-false (contains_secret secrets v) (fields_contain_secret secrets fs) rest).0 m
    fields_contain_secret-TextOf (field foreign _ _) h (of_value {v = v} {fs = fs} m) =
        contains_secret-TextOf v
          (||-eq-false (contains_secret secrets v) (fields_contain_secret secrets fs) h).0 m
    fields_contain_secret-TextOf (field (name k) _ _) h (of_further {v = v} {fs = fs} m) =
        let rest =
          (||-eq-false (any (λ x. contains x k) secrets)
            (contains_secret secrets v || fields_contain_secret secrets fs) h).1 in
        fields_contain_secret-TextOf fs
          (||-eq-false (contains_secret secrets v) (fields_contain_secret secrets fs) rest).1 m
    fields_contain_secret-TextOf (field foreign _ _) h (of_further {v = v} {fs = fs} m) =
        fields_contain_secret-TextOf fs
          (||-eq-false (contains_secret secrets v) (fields_contain_secret secrets fs) h).1 m
