-- ===== src/Bindings/Convert.antt =====
-- `luaToJson` and `l2jParseItem` of src/lua_chat.cpp. A table may hold tables to any depth, and
-- itself: `depth` is how deep the C stack lets the calls go, and `none` stands for its overflow.
use fserv.Prelude.{
  ℕ, zero, suc, Bool, true, false, Option, none, some, List, [], ◌∷◌, ◌>>=◌, map, take, drop,
  if◌then◌else◌,
}
use fserv.Prelude.Bytes.{Bytes, codes, eq_bytes, c_str}
use fserv.Json.{Jansson, given}
use fserv.Bindings.{LuaApi, LuaType, lua_tboolean, lua_tnumber, lua_tstring, lua_ttable}

abbrev pub is_table : LuaType → Bool
is_table lua_ttable = true
is_table _ = false

-- Each in turn.
unfoldable pub each {ℓ κ} : {A : Type ℓ} {B : Type κ} → (A → Option B) → List A → Option (List B)
each f [] = some []
each f (x ∷ xs) = do y ← f x; ys ← each f xs; some (y ∷ ys)

-- `real` is `json_real` of `lua_tonumber`.
module _ {V J : Type 0} (lua : LuaApi V) (j : Jansson J) (real : V → J) where
  -- A key that is no string leaves the empty one.
  abbrev pub key_of : V → Bytes
  key_of k = elim (lua.lua_type k) [ lua_tstring ↦ given [] (lua.lua_tostring k) | _ ↦ [] ]

  abbrev text_of : V → J
  text_of v = given (j.json_string []) (j.json_string_checked (given [] (lua.lua_tostring v)))

  -- `json_object_set_new` drops an item whose key it refuses.
  unfoldable pub accepted : List (Bytes × J) → List (Bytes × J)
  accepted [] = []
  accepted ((key, item) ∷ items) =
      let rest = accepted items in if j.json_accepts_key key then (key, item) ∷ rest else rest

  abbrev pub second : Bytes × J → J
  second p = p.1

  abbrev table_item : Bytes → List (Bytes × J) → Bytes × J
  table_item key items =
      if eq_bytes (take 6 key) (codes "array_")
      then (c_str (drop 6 key), j.json_array (map second items))
      else (key, j.json_object (accepted items))

  unfoldable pub l2j_parse_item : ℕ → V × V → Option (Bytes × J)
  unfolding each accepted
  l2j_parse_item zero pair = none
  l2j_parse_item (suc depth) (k, v) = elim (lua.lua_type v) [
    | lua_tboolean ↦ some (key_of k, j.json_boolean (lua.lua_toboolean v))
    | lua_tnumber ↦ some (key_of k, real v)
    | lua_tstring ↦ some (key_of k, text_of v)
    | lua_ttable ↦ (do
      items ← each (l2j_parse_item depth) (lua.lua_next v)
      some (table_item (key_of k) items))
    | _ ↦ some (key_of k, j.json_null)
  ]

  -- The value at the top of the stack.
  unfoldable pub lua_to_json : ℕ → Option V → Option J
  unfolding l2j_parse_item accepted each
  lua_to_json depth none = some (j.json_object [])
  lua_to_json depth (some v) =
      if is_table (lua.lua_type v)
      then (do
        items ← each (l2j_parse_item depth) (lua.lua_next v)
        some (j.json_object (accepted items)))
      else some (j.json_object [])
