-- ===== src/Worker/Payload.antt =====
-- `_validate_json_value`, `validate_payload` and the constructor of `TaskHandlerError`.
-- `math.isfinite` is read off the IEEE 754 bits of a float; the length of the UTF-8 encoding of
-- `json.dumps` is the parameter `encoded_size`.
use Prim.Native.String.{count}
use gapforge.Common.{
  ℕ, suc, ◌+◌, ◌/◌, ◌%◌, ◌^◌, String, Bool, true, false, not, ◌||◌, value_error, Result, ok, err,
  ◌>>=◌, ◌>>◌, raise_if, ltb, nat_beq,
}
use gapforge.Common.Int.{ℤ, pos, negsuc}
use gapforge.Json.{
  Json, Items, Fields, Key, null, other, boolean, integer, floating, text, array, object, nil, cons,
  end, field, name, foreign,
}

abbrev pub max_result_bytes : ℕ
max_result_bytes = 1000000

abbrev pub max_result_depth : ℕ
max_result_depth = 32

abbrev pub max_result_keys : ℕ
max_result_keys = 10000

-- `-(2**63) <= value < 2**63`
abbrev pub is_int64 : ℤ → Bool
is_int64 (pos n) = ltb n (2 ^ 63)
is_int64 (negsuc n) = ltb n (2 ^ 63)

-- `math.isfinite`: the eleven bits of the exponent are not all set.
abbrev pub is_finite : ℕ → Bool
is_finite bits = not (nat_beq (bits / 2 ^ 52 % 2048) 2047)

abbrev pub is_text_key : Key → Bool
is_text_key (name _) = true
is_text_key foreign = false

abbrev pub has_foreign_key : Fields → Bool
has_foreign_key end = false
has_foreign_key (field k v fs) = not (is_text_key k) || has_foreign_key fs

-- `len(value)`
abbrev pub key_count : Fields → ℕ
key_count end = 0
key_count (field k v fs) = suc (key_count fs)

-- The list `key_count` of the source is here the number that goes in and the number that comes out.
abbrev pub check_depth : ℕ → Result (Unit {0})
check_depth depth = raise_if (ltb max_result_depth depth) value_error

-- The value itself, below the check of its depth.
unfoldable mutual
  pub validate_kind : Json → ℕ → ℕ → Result ℕ
  validate_kind null depth keys = ok keys
  validate_kind (boolean b) depth keys = ok keys
  validate_kind (text s) depth keys = ok keys
  validate_kind (integer n) depth keys = raise_if (not (is_int64 n)) value_error >> ok keys
  validate_kind (floating f) depth keys = raise_if (not (is_finite f)) value_error >> ok keys
  validate_kind (array xs) depth keys = validate_items xs (suc depth) keys
  validate_kind (object fs) depth keys =
      raise_if (has_foreign_key fs) value_error
      >> (raise_if (ltb max_result_keys (keys + key_count fs)) value_error
          >> validate_values fs (suc depth) (keys + key_count fs))
  validate_kind other depth keys = err value_error

  pub validate_items : Items → ℕ → ℕ → Result ℕ
  validate_items nil depth keys = ok keys
  validate_items (cons x xs) depth keys =
      (check_depth depth >> validate_kind x depth keys) >>= λ keys'. validate_items xs depth keys'

  pub validate_values : Fields → ℕ → ℕ → Result ℕ
  validate_values end depth keys = ok keys
  validate_values (field k v fs) depth keys =
      (check_depth depth >> validate_kind v depth keys) >>= λ keys'. validate_values fs depth keys'

unfoldable pub validate_json_value : Json → ℕ → ℕ → Result ℕ
unfolding validate_kind
validate_json_value value depth keys = check_depth depth >> validate_kind value depth keys

-- `validate_payload`: the payload is an object, and its encoding is not too long.
unfoldable pub validate_payload : (Json → ℕ) → Json → Result Json
unfolding validate_json_value
validate_payload encoded_size (object fs) = do
  keys ← validate_json_value (object fs) 0 0
  raise_if (ltb max_result_bytes (encoded_size (object fs))) value_error
  ok (object fs)
validate_payload encoded_size _ = err value_error

-- The constructor of `TaskHandlerError`, on the error class.
abbrev pub check_error_class : String → Result String
check_error_class s = do raise_if (nat_beq (count s) 0 || ltb 128 (count s)) value_error; ok s
