-- ===== src/Json/Laws.antt =====
-- Reading a key after a write.
use text.Mathlib.TextEquality.{eq_iff}
use gapforge.Common.{◌≡◌, ◌≢◌, String, some, arith}
use gapforge.Json.{Json, Fields, end, field, name, foreign, get_field, set_field}

pub get_field-set_field_self :
    (k : String) (v : Json) (fs : Fields) → get_field k (set_field k v fs) ≡ some v
unfolding get_field set_field
get_field-set_field_self k v end = ground (arith, eq_iff k k)
get_field-set_field_self k v (field (name j) w fs) =
    ground (arith, eq_iff j k, get_field-set_field_self k v fs)
get_field-set_field_self k v (field foreign w fs) = get_field-set_field_self k v fs

pub get_field-set_field_ne :
    (j k : String) (v : Json) (fs : Fields)
    → j ≢ k
    → get_field j (set_field k v fs) ≡ get_field j fs
unfolding get_field set_field
get_field-set_field_ne j k v end h = ground (arith, eq_iff k j)
get_field-set_field_ne j k v (field (name i) w fs) h =
    ground (arith, eq_iff i k, eq_iff i j, get_field-set_field_ne j k v fs h)
get_field-set_field_ne j k v (field foreign w fs) h = get_field-set_field_ne j k v fs h
