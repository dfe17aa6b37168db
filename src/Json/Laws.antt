-- ===== src/Json/Laws.antt =====
-- What the library documents of values that were made, and the readers on them.
use fserv.Prelude.{◌≡◌, ap, ◌∙◌, true, some, List}
use fserv.Prelude.Bytes.{Bytes, c_str, c_str_idem}
use fserv.Prelude.Int.{ℤ}
use fserv.Prelude.Maps.{bytes_eq, lookup, Distinct}
use fserv.Json.{Jansson, text, string_at, integer_at, checked_integer_at, array_at}

-- The library's laws on values that were made of distinct keys.
pub record IsJansson {J : Type 0} (j : Jansson J) : Type 0 where
  pub get-object :
      (key : Bytes) (fields : List (Bytes × J))
      → Distinct fields
      → j.json_object_get key (j.json_object fields) ≡ lookup key fields
  pub elements-array : (nodes : List J) → j.json_elements (j.json_array nodes) ≡ some nodes
  pub string_value-string :
      (s : Bytes) → j.json_string_value (j.json_string (c_str s)) ≡ some (c_str s)
  pub is_object-object :
      (fields : List (Bytes × J)) → j.json_is_object (j.json_object fields) ≡ true
  pub is_integer-integer : (n : ℤ) → j.json_is_integer (j.json_integer n) ≡ true
  pub integer_value-integer : (n : ℤ) → j.json_integer_value (j.json_integer n) ≡ n

module _ {J : Type 0} (j : Jansson J) (laws : IsJansson j) where
  pub string_at-object :
      (fields : List (Bytes × J)) (key s : Bytes)
      → Distinct fields
      → lookup key fields ≡ some (text j s)
      → string_at j key (j.json_object fields) ≡ some (c_str s)
  unfolding string_at
  string_at-object fields key s d e =
      let g = laws.get-object key fields d ∙ e in
      rw g (rw (laws.string_value-string s) (ap some (c_str_idem s)))

  pub integer_at-object :
      (fields : List (Bytes × J)) (key : Bytes) (n : ℤ)
      → Distinct fields
      → lookup key fields ≡ some (j.json_integer n)
      → integer_at j key (j.json_object fields) ≡ some n
  unfolding integer_at
  integer_at-object fields key n d e =
      let g = laws.get-object key fields d ∙ e in rw g (ap some (laws.integer_value-integer n))

  pub checked_integer_at-object :
      (fields : List (Bytes × J)) (key : Bytes) (n : ℤ)
      → Distinct fields
      → lookup key fields ≡ some (j.json_integer n)
      → checked_integer_at j key (j.json_object fields) ≡ some n
  unfolding checked_integer_at
  checked_integer_at-object fields key n d e =
      let g = laws.get-object key fields d ∙ e in
      rw g (rw (laws.is_integer-integer n) (ap some (laws.integer_value-integer n)))

  pub array_at-object :
      (fields : List (Bytes × J)) (key : Bytes) (nodes : List J)
      → Distinct fields
      → lookup key fields ≡ some (j.json_array nodes)
      → array_at j key (j.json_object fields) ≡ some nodes
  unfolding array_at
  array_at-object fields key nodes d e =
      let g = laws.get-object key fields d ∙ e in rw g (laws.elements-array nodes)
