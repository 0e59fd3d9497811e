-- ===== src/Worker/Accepting.antt =====
-- Which results of a task the worker accepts.
use gapforge.Common.{
  ℕ, suc, ◌+◌, ◌≤◌, ◌≡◌, ◌↔◌, sym, ap, ◌∙◌, true, false, not, value_error, ok, ◌>>◌, >>=-eq-ok,
  raise_if-eq-ok, arith, ltb,
}
use gapforge.Json.{
  Json, Items, Fields, null, other, boolean, integer, floating, text, array, object, nil, cons, end,
  field,
}
use gapforge.Worker.Payload.{
  max_result_bytes, max_result_depth, max_result_keys, is_int64, is_finite, has_foreign_key,
  key_count, check_depth, validate_json_value, validate_kind, validate_items, validate_values,
  validate_payload,
}

-- A JSON value that fits below the given depth: no value lies deeper than 32, integers have 64 bits,
-- floats are finite, and keys are texts.
unfoldable mutual
  pub HasKind : ℕ → Json → Type 0
  HasKind depth null = Unit
  HasKind depth other = ⊥
  HasKind depth (boolean b) = Unit
  HasKind depth (integer n) = is_int64 n ≡ true
  HasKind depth (floating f) = is_finite f ≡ true
  HasKind depth (text s) = Unit
  HasKind depth (array xs) = ItemsFit (suc depth) xs
  HasKind depth (object fs) = (has_foreign_key fs ≡ false) × FieldsFit (suc depth) fs

  pub ItemsFit : ℕ → Items → Type 0
  ItemsFit depth nil = Unit
  ItemsFit depth (cons x xs) = (depth ≤ max_result_depth) × HasKind depth x × ItemsFit depth xs

  pub FieldsFit : ℕ → Fields → Type 0
  FieldsFit depth end = Unit
  FieldsFit depth (field k v fs) = (depth ≤ max_result_depth) × HasKind depth v × FieldsFit depth fs

abbrev pub Fits : ℕ → Json → Type 0
Fits depth v = (depth ≤ max_result_depth) × HasKind depth v

-- The keys of all objects in a value.
unfoldable mutual
  pub total_keys : Json → ℕ
  total_keys (array xs) = items_keys xs
  total_keys (object fs) = key_count fs + fields_keys fs
  total_keys _ = 0

  pub items_keys : Items → ℕ
  items_keys nil = 0
  items_keys (cons x xs) = total_keys x + items_keys xs

  pub fields_keys : Fields → ℕ
  fields_keys end = 0
  fields_keys (field k v fs) = total_keys v + fields_keys fs

-- What a pass of the validation over a part with `extra` keys has established.
abbrev Passed : Type 0 → ℕ → ℕ → ℕ → Type 0
Passed Fit extra keys keys' =
    Fit × (keys' ≡ keys + extra) × (keys ≤ max_result_keys → keys' ≤ max_result_keys)

mutual
  unfolding validate_kind HasKind total_keys

  kind-Passed :
      (v : Json) (depth keys keys' : ℕ)
      → validate_kind v depth keys ≡ ok keys'
      → Passed (HasKind depth v) (total_keys v) keys keys'
  kind-Passed null depth keys keys' h = (tt, ground arith, λ b. ground (arith, b))
  kind-Passed other depth keys keys' h = absurd (ground arith)
  kind-Passed (boolean x) depth keys keys' h = (tt, ground arith, λ b. ground (arith, b))
  kind-Passed (text s) depth keys keys' h = (tt, ground arith, λ b. ground (arith, b))
  kind-Passed (integer n) depth keys keys' h =
      let (fits, rest) = raise_if-eq-ok (not (is_int64 n)) value_error (ok keys) keys' h in
      (ground arith, ground arith, λ b. ground (arith, b))
  kind-Passed (floating f) depth keys keys' h =
      let (fits, rest) = raise_if-eq-ok (not (is_finite f)) value_error (ok keys) keys' h in
      (ground arith, ground arith, λ b. ground (arith, b))
  kind-Passed (array xs) depth keys keys' h = items-Passed xs (suc depth) keys keys' h
  kind-Passed (object fs) depth keys keys' h =
      let (texts, rest) = raise_if-eq-ok (has_foreign_key fs) value_error _ keys' h in
      let (few, rest') =
        raise_if-eq-ok (ltb max_result_keys (keys + key_count fs)) value_error _ keys' rest in
      let (fits, count, bound) = fields-Passed fs (suc depth) (keys + key_count fs) keys' rest' in
      let room : keys + key_count fs ≤ max_result_keys = ground arith in
      ((texts, fits), omega arith, λ b. bound room)

  items-Passed :
      (xs : Items) (depth keys keys' : ℕ)
      → validate_items xs depth keys ≡ ok keys'
      → Passed (ItemsFit depth xs) (items_keys xs) keys keys'
  items-Passed nil depth keys keys' h = (tt, ground arith, λ b. ground (arith, b))
  items-Passed (cons x xs) depth keys keys' h =
      let (mid, first, rest) =
        >>=-eq-ok (check_depth depth >> validate_kind x depth keys) _ keys' h in
      let (shallow, kind) =
        raise_if-eq-ok (ltb max_result_depth depth) value_error (validate_kind x depth keys) mid
          first in
      let (fits, count, bound) = kind-Passed x depth keys mid kind in
      let (fits', count', bound') = items-Passed xs depth mid keys' rest in
      ((ground arith, fits, fits'), omega arith, λ b. bound' (bound b))

  fields-Passed :
      (fs : Fields) (depth keys keys' : ℕ)
      → validate_values fs depth keys ≡ ok keys'
      → Passed (FieldsFit depth fs) (fields_keys fs) keys keys'
  fields-Passed end depth keys keys' h = (tt, ground arith, λ b. ground (arith, b))
  fields-Passed (field k v fs) depth keys keys' h =
      let (mid, first, rest) =
        >>=-eq-ok (check_depth depth >> validate_kind v depth keys) _ keys' h in
      let (shallow, kind) =
        raise_if-eq-ok (ltb max_result_depth depth) value_error (validate_kind v depth keys) mid
          first in
      let (fits, count, bound) = kind-Passed v depth keys mid kind in
      let (fits', count', bound') = fields-Passed fs depth mid keys' rest in
      ((ground arith, fits, fits'), omega arith, λ b. bound' (bound b))

value-Passed :
    (v : Json) (depth keys keys' : ℕ)
    → validate_json_value v depth keys ≡ ok keys'
    → Passed (Fits depth v) (total_keys v) keys keys'
unfolding validate_json_value
value-Passed v depth keys keys' h =
    let (shallow, rest) =
      raise_if-eq-ok (ltb max_result_depth depth) value_error (validate_kind v depth keys) keys'
        h in
    let (fits, count, bound) = kind-Passed v depth keys keys' rest in
    ((ground arith, fits), count, bound)

-- What fits, with few enough keys, passes.
mutual
  unfolding validate_kind HasKind total_keys

  kind_passes :
      (v : Json) (depth keys : ℕ)
      → HasKind depth v
      → keys + total_keys v ≤ max_result_keys
      → validate_kind v depth keys ≡ ok (keys + total_keys v)
  kind_passes null depth keys h room = ap ok (omega arith)
  kind_passes other depth keys h room = absurd h
  kind_passes (boolean x) depth keys h room = ap ok (omega arith)
  kind_passes (text s) depth keys h room = ap ok (omega arith)
  kind_passes (integer n) depth keys h room = rw h (ap ok (omega arith))
  kind_passes (floating f) depth keys h room = rw h (ap ok (omega arith))
  kind_passes (array xs) depth keys h room = items_passes xs (suc depth) keys h room
  kind_passes (object fs) depth keys h room =
      let few : ltb max_result_keys (keys + key_count fs) ≡ false = ground arith in
      rw (h.0, few)
        (fields_passes fs (suc depth) (keys + key_count fs) h.1 (omega arith) ∙ ap ok (omega arith))

  items_passes :
      (xs : Items) (depth keys : ℕ)
      → ItemsFit depth xs
      → keys + items_keys xs ≤ max_result_keys
      → validate_items xs depth keys ≡ ok (keys + items_keys xs)
  items_passes nil depth keys h room = ap ok (omega arith)
  items_passes (cons x xs) depth keys h room =
      let shallow : ltb max_result_depth depth ≡ false = ground (arith, h.0) in
      rw (shallow, kind_passes x depth keys h.1 (omega arith))
        (items_passes xs depth (keys + total_keys x) h.2 (omega arith) ∙ ap ok (omega arith))

  fields_passes :
      (fs : Fields) (depth keys : ℕ)
      → FieldsFit depth fs
      → keys + fields_keys fs ≤ max_result_keys
      → validate_values fs depth keys ≡ ok (keys + fields_keys fs)
  fields_passes end depth keys h room = ap ok (omega arith)
  fields_passes (field k v fs) depth keys h room =
      let shallow : ltb max_result_depth depth ≡ false = ground (arith, h.0) in
      rw (shallow, kind_passes v depth keys h.1 (omega arith))
        (fields_passes fs depth (keys + total_keys v) h.2 (omega arith) ∙ ap ok (omega arith))

value_passes :
    (v : Json) (depth keys : ℕ)
    → Fits depth v
    → keys + total_keys v ≤ max_result_keys
    → validate_json_value v depth keys ≡ ok (keys + total_keys v)
unfolding validate_json_value
value_passes v depth keys h room =
    let shallow : ltb max_result_depth depth ≡ false = ground (arith, h.0) in
    rw shallow (kind_passes v depth keys h.1 room)

-- A payload is accepted, as it is, exactly if it is an object that fits at depth 0, holds at most
-- 10000 keys in all of its objects together, and is encoded in at most 1000000 bytes.
pub validate_payload_accepts :
    (encoded_size : Json → ℕ) (fs : Fields) (v : Json)
    → (validate_payload encoded_size (object fs) ≡ ok v) ↔ (
        (v ≡ object fs)
        × Fits 0 (object fs)
        × (total_keys (object fs) ≤ max_result_keys)
        × (encoded_size (object fs) ≤ max_result_bytes))
unfolding validate_payload
validate_payload_accepts encoded_size fs v = (accepted, accepts)
  where
    accepted :
        validate_payload encoded_size (object fs) ≡ ok v
        → (v ≡ object fs)
          × Fits 0 (object fs)
          × (total_keys (object fs) ≤ max_result_keys)
          × (encoded_size (object fs) ≤ max_result_bytes)
    accepted h =
        let (keys, checked, rest) = >>=-eq-ok (validate_json_value (object fs) 0 0) _ v h in
        let (small, done) =
          raise_if-eq-ok (ltb max_result_bytes (encoded_size (object fs))) value_error
            (ok (object fs)) v rest in
        let (fits, count, bound) = value-Passed (object fs) 0 0 keys checked in
        let few = bound (omega arith) in
        (ground (arith, done), fits, omega (arith, count, few), ground (arith, small))

    accepts :
        (v ≡ object fs)
          × Fits 0 (object fs)
          × (total_keys (object fs) ≤ max_result_keys)
          × (encoded_size (object fs) ≤ max_result_bytes)
        → validate_payload encoded_size (object fs) ≡ ok v
    accepts (same, fits, few, small) =
        let short : ltb max_result_bytes (encoded_size (object fs)) ≡ false = ground arith in
        let room : 0 + total_keys (object fs) ≤ max_result_keys = omega (arith, few) in
        rw (value_passes (object fs) 0 0 fits room, short) (ap ok (sym same))
