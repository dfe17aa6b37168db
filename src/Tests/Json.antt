-- ===== src/Tests/Json.antt =====
-- JSON values, as an instance of the interface to the library.
use fserv.Prelude.{
  ◌≡◌, refl, ap, Bool, true, false, Option, none, some, List, [], ◌∷◌, if◌then◌else◌,
}
use fserv.Prelude.Bytes.{Bytes}
use fserv.Prelude.Int.{ℤ, pos}
use fserv.Prelude.Maps.{bytes_eq, lookup, same}
use fserv.Json.{Jansson}
use fserv.Json.Laws.{IsJansson}

mutual
  pub data Json : Type 0 where
    object : Fields → Json
    array : Nodes → Json
    string : Bytes → Json
    integer : ℤ → Json
    boolean : Bool → Json
    null : Json

  pub data Fields : Type 0 where
    no_field : Fields
    field : Bytes → Json → Fields → Fields

  pub data Nodes : Type 0 where
    no_node : Nodes
    node : Json → Nodes → Nodes

unfoldable pub fields_of : List (Bytes × Json) → Fields
fields_of [] = no_field
fields_of ((k, v) ∷ fs) = field k v (fields_of fs)

unfoldable pub nodes_of : List Json → Nodes
nodes_of [] = no_node
nodes_of (v ∷ vs) = node v (nodes_of vs)

unfoldable pub list_of : Nodes → List Json
list_of no_node = []
list_of (node v vs) = v ∷ list_of vs

unfoldable pub find_field : Bytes → Fields → Option Json
find_field key no_field = none
find_field key (field k v fs) = if same k key then some v else find_field key fs

abbrev pub get : Bytes → Json → Option Json
get key (object fs) = find_field key fs
get key _ = none

abbrev pub elements : Json → Option (List Json)
elements (array vs) = some (list_of vs)
elements _ = none

abbrev pub string_value : Json → Option Bytes
string_value (string s) = some s
string_value _ = none

abbrev pub integer_value : Json → ℤ
integer_value (integer n) = n
integer_value _ = pos 0

abbrev pub is_object : Json → Bool
is_object (object fs) = true
is_object _ = false

abbrev pub is_integer : Json → Bool
is_integer (integer n) = true
is_integer _ = false

-- The parser and the writer are put in where a test needs them.
abbrev pub json : Jansson Json
json = record {
  json_object = λ fs. object (fields_of fs);
  json_array = λ vs. array (nodes_of vs);
  json_string = string;
  json_string_checked = λ s. some (string s);
  json_integer = integer;
  json_boolean = boolean;
  json_null = null;
  json_accepts_key = λ s. true;
  json_object_get = get;
  json_is_object = is_object;
  json_elements = elements;
  json_string_value = string_value;
  json_is_integer = is_integer;
  json_integer_value = integer_value;
  json_loads = λ s. none;
  json_dumps = λ v. [];
  json_dumps_indented = λ v. [];
}

find_field-fields_of :
    (key : Bytes) (fs : List (Bytes × Json)) → find_field key (fields_of fs) ≡ lookup key fs
unfolding find_field fields_of lookup
find_field-fields_of key [] = refl
find_field-fields_of key ((k, v) ∷ fs) =
    ap (λ o. if same k key then some v else o) (find_field-fields_of key fs)

list_of-nodes_of : (vs : List Json) → list_of (nodes_of vs) ≡ vs
unfolding list_of nodes_of
list_of-nodes_of [] = refl
list_of-nodes_of (v ∷ vs) = ap (◌∷◌ v) (list_of-nodes_of vs)

pub json-IsJansson : IsJansson json
json-IsJansson = record {
  get-object = λ key fs d. find_field-fields_of key fs;
  elements-array = λ vs. ap some (list_of-nodes_of vs);
  string_value-string = λ s. refl;
  is_object-object = λ fs. refl;
  is_integer-integer = λ n. refl;
  integer_value-integer = λ n. refl;
}

-- With a parser and a writer.
abbrev pub json_with : (Bytes → Option Json) → (Json → Bytes) → Jansson Json
json_with loads dumps = record json {
  json_loads = loads;
  json_dumps = dumps;
  json_dumps_indented = dumps;
}

pub json_with-IsJansson :
    (loads : Bytes → Option Json) (dumps : Json → Bytes) → IsJansson (json_with loads dumps)
json_with-IsJansson loads dumps = record {
  get-object = json-IsJansson.get-object;
  elements-array = json-IsJansson.elements-array;
  string_value-string = json-IsJansson.string_value-string;
  is_object-object = json-IsJansson.is_object-object;
  is_integer-integer = json-IsJansson.is_integer-integer;
  integer_value-integer = json-IsJansson.integer_value-integer;
}
