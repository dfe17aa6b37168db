-- ===== src/Bindings/Http.antt =====
-- src/lua_http.cpp: the module `http` of the scripts. `tableToMap` takes a value off the stack, so
-- here the arguments that are left go on.
pub mod Requests
use fserv.Prelude.{
  ℕ, Bool, true, false, ◌&&◌, not, Option, none, some, List, [], ◌∷◌, ◌++◌, if◌then◌else◌,
}
use fserv.Prelude.Bytes.{Bytes, codes, c_str}
use fserv.Prelude.Maps.{Map, bytes_eq, insert}
use fserv.Json.{given}
use fserv.Bindings.{
  LuaApi, LuaType, lua_tstring, Item, string, HttpRequest, Site, Pushed, Call, Binding, ◌>>=◌, ◌>>◌,
  pure, lua_error, get_site, put_site, or_call, nothing, answer, arg, type_of, is_light, check_any,
  check_string, get_lcon,
}
use fserv.Bindings.Convert.{is_table}
use fserv.Bindings.Connections.Fields.{is_string}

-- `lua_pop(L, 1)`
abbrev pub pop {ℓ} : {A : Type ℓ} → List A → List A
pop [] = []
pop (x ∷ []) = []
pop (x ∷ y ∷ xs) = x ∷ pop (y ∷ xs)

-- `HTTPClient::addRequest`; `got` says that the queue took the request.
abbrev pub add_http : Bool → HttpRequest → Site → Site
add_http got r s = if got then record s { http = s.http ++ r ∷ [] } else s

-- The loop that calls `postField` for each pair; `escape` is `HTTPClient::escapeSegment`.
abbrev pub post_fields_of : (Bytes → Bytes) → Map Bytes Bytes → Map Bytes Bytes
post_fields_of escape [] = []
post_fields_of escape ((name, value) ∷ m) = (name, escape value) ∷ post_fields_of escape m

module _ {V : Type 0} (lua : LuaApi V) where
  -- The loop over the pairs, which stops at one that is not of two strings.
  unfoldable pub take_pairs : List (V × V) → Map Bytes Bytes → Call (Map Bytes Bytes)
  take_pairs [] target = pure target
  take_pairs ((k, v) ∷ pairs) target =
      if is_string (lua.lua_type k) && is_string (lua.lua_type v)
      then take_pairs pairs
          (insert (given [] (lua.lua_tostring k)) (given [] (lua.lua_tostring v)) target)
      else lua_error (codes "Table must contain only string keys and values.")

  -- The map, and what is left of the stack.
  unfoldable pub table_to_map : List V → ℕ → Call (Map Bytes Bytes × List V)
  unfolding take_pairs
  table_to_map args n =
      or_call (arg lua args n)
        (λ v. do target ← take_pairs (lua.lua_next v) []; pure (target, pop args))
        (pure ([], pop args))

  -- The connection of `getRequest`: the third argument is asked for its type, the fourth is taken.
  unfoldable pub third_connection : List V → Call (Option ℕ)
  third_connection args =
      if is_light (type_of lua args 3)
      then (do k ← get_lcon lua args 4; pure (some k))
      else pure none

  unfoldable pub fourth_connection : List V → Call (Option ℕ)
  fourth_connection args =
      if is_light (type_of lua args 4)
      then (do k ← get_lcon lua args 4; pure (some k))
      else pure none

  unfoldable pub extras_at : List V → ℕ → Call (Map Bytes Bytes)
  unfolding table_to_map
  extras_at args n =
      if is_table (type_of lua args n) then (do r ← table_to_map args n; pure r.0) else pure []

  unfoldable pub get_request : Bool → Binding V
  unfolding third_connection extras_at
  get_request got args = do
    check_any lua args 4
    callback ← check_string lua args 1
    url ← check_string lua args 2
    con ← third_connection args
    extras ← extras_at args 4
    s ← get_site
    put_site (
        add_http got
          (record {
            method = codes "GET";
            url = url;
            callback_name = callback;
            connection = con;
            extras = extras;
            post_fields = [];
          })
          s)
    nothing

  unfoldable pub post_request : (Bytes → Bytes) → Bool → Binding V
  unfolding fourth_connection extras_at
  post_request escape got args = do
    check_any lua args 5
    callback ← check_string lua args 1
    url ← check_string lua args 2
    con ← fourth_connection args
    if not (is_table (type_of lua args 3))
        then lua_error (codes "POST data must be a table of strings")
        else do
          post ← table_to_map args 3
          extras ← extras_at post.1 5
          s ← get_site
          put_site (
              add_http got
                (record {
                  method = codes "POST";
                  url = url;
                  callback_name = callback;
                  connection = con;
                  extras = extras;
                  post_fields = post_fields_of escape post.0;
                })
                s)
          nothing

  -- `escape` is `HTTPClient::escapeSegment`.
  unfoldable pub escape_string : (Bytes → Bytes) → Binding V
  escape_string escape args = do
    check_any lua args 1
    input ← check_string lua args 1
    answer (string (c_str (escape input)))
