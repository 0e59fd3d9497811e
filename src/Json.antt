-- ===== src/Json.antt =====
-- JSON columns and task results as Python values: `dict[str, object]` and what it may hold.
use gapforge.Common.{
  ℕ, ◌≡◌, ◌≢◌, String, Bool, true, false, Option, none, some, arith, if◌then◌else◌, ◌==◌, string_eq,
}
use gapforge.Common.Int.{ℤ}
pub mod Laws

-- A key of a dict: a text, or a value of another type.
pub data Key : Type 0 where
  name : String → Key
  foreign : Key

-- A float is its IEEE 754 bit pattern. `other` is a value that JSON has no form for.
mutual
  pub data Json : Type 0 where
    null other : Json
    boolean : Bool → Json
    integer : ℤ → Json
    floating : ℕ → Json
    text : String → Json
    array : Items → Json
    object : Fields → Json

  pub data Items : Type 0 where
    nil : Items
    cons : Json → Items → Items

  pub data Fields : Type 0 where
    end : Fields
    field : Key → Json → Fields → Fields

abbrev pub is_name : String → Key → Bool
is_name k (name j) = j == k
is_name k foreign = false

-- `value.get(key)`
unfoldable pub get_field : String → Fields → Option Json
get_field k end = none
get_field k (field j v fs) = if is_name k j then some v else get_field k fs

-- `{**fields, key: value}`: a key that is there keeps its place.
unfoldable pub set_field : String → Json → Fields → Fields
set_field k v end = field (name k) v end
set_field k v (field j w fs) = if is_name k j then field j v fs else field j w (set_field k v fs)
