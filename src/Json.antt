-- ===== src/Json.antt =====
-- The part of the jansson library that the server calls, as an interface, and the shapes in which
-- its sources read a field: the C string, the integer or the elements under a key.
pub mod Laws
use fserv.Prelude.{Bool, true, false, Option, none, some, List, [], ◌>>=◌}
use fserv.Prelude.Bytes.{Bytes, c_str}
use fserv.Prelude.Int.{ℤ}

-- Values `J` of the library. `json_object` and `json_array` stand for making one and setting or
-- appending in turn; `json_elements` is `none` where `json_is_array` is false, and else what
-- `json_array_get` gives for each index; `json_string_value` is `none` where `json_is_string` is
-- false; a null pointer is `none`. `json_string_checked` is `json_string`, which refuses what is no
-- UTF-8, and `json_string` is `json_string_nocheck`; `json_accepts_key` is what `json_object_set`
-- asks of a key and `json_object_set_nocheck` does not. `json_loads` is the parser; `json_dumps` and
-- `json_dumps_indented` are the writer with JSON_COMPACT and with JSON_INDENT(4).
pub record Jansson (J : Type 0) : Type 0 where
  pub json_object : List (Bytes × J) → J
  pub json_array : List J → J
  pub json_string : Bytes → J
  pub json_string_checked : Bytes → Option J
  pub json_integer : ℤ → J
  pub json_boolean : Bool → J
  pub json_null : J
  pub json_accepts_key : Bytes → Bool
  pub json_object_get : Bytes → J → Option J
  pub json_is_object : J → Bool
  pub json_elements : J → Option (List J)
  pub json_string_value : J → Option Bytes
  pub json_is_integer : J → Bool
  pub json_integer_value : J → ℤ
  pub json_loads : Bytes → Option J
  pub json_dumps : J → Bytes
  pub json_dumps_indented : J → Bytes

abbrev pub given {ℓ} : {A : Type ℓ} → A → Option A → A
given a none = a
given a (some b) = b

module _ {J : Type 0} (j : Jansson J) where
  -- A field whose value is the C string of `s`.
  abbrev pub text : Bytes → J
  text s = j.json_string (c_str s)

  abbrev pub c_string_value : J → Option Bytes
  c_string_value value = do s ← j.json_string_value value; some (c_str s)

  -- The C string under a key.
  unfoldable pub string_at : Bytes → J → Option Bytes
  string_at key node = do value ← j.json_object_get key node; c_string_value value

  unfoldable pub integer_at : Bytes → J → Option ℤ
  integer_at key node = do value ← j.json_object_get key node; some (j.json_integer_value value)

  -- The same behind `json_is_integer`.
  unfoldable pub checked_integer_at : Bytes → J → Option ℤ
  checked_integer_at key node = do
    value ← j.json_object_get key node
    elim (j.json_is_integer value) [ true ↦ some (j.json_integer_value value) | false ↦ none ]

  -- The elements of the array under a key.
  unfoldable pub array_at : Bytes → J → Option (List J)
  array_at key node = do value ← j.json_object_get key node; j.json_elements value

  unfoldable pub elements_at : Bytes → J → List J
  elements_at key node = given [] (j.json_object_get key node >>= λ value. j.json_elements value)
