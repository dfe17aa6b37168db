-- ===== src/Bindings/Connections/Sets.antt =====
-- The bindings of src/lua_connection.cpp for the sets of a connection: roles, friends, ignores and
-- kinks. The loops run over the table at the top of the stack; `lua_next` faults on what is no table.
use fserv.Prelude.{
  ℕ, Bool, true, false, not, Option, none, some, List, [], ◌∷◌, ◌++◌, map, if◌then◌else◌,
}
use fserv.Prelude.Bytes.{Bytes, codes}
use fserv.Prelude.Int.{ℤ, pos}
use fserv.Prelude.Maps.{bytes_eq, int_eq, add, remove, member}
use fserv.Json.{given}
use fserv.Connection.{Connection}
use fserv.NativeCommand.Search.{to_int}
use fserv.Bindings.{
  LuaApi, boolean, array, redis_del, redis_lpush, RedisRequest, Site, Pushed, Call, Binding, ◌>>=◌,
  ◌>>◌, lua_error, fault, get_site, put_site, on_connection, connection_of, or_call, nothing,
  answer, type_of, check_any, check_string, get_lcon,
}
use fserv.Bindings.Convert.{is_table, each}
use fserv.Bindings.Channels.Members.{strings, add_role, remove_role}
use fserv.Bindings.Channels.Said.{top}
use fserv.Bindings.Connections.Fields.{write_string, read_connection}

-- `Redis::addRequest`; `got` says that the client runs and its mutex was got in time.
unfoldable pub add_request : Bool → RedisRequest → Site → Site × Bool
add_request got r s = if got then (record s { redis = s.redis ++ r ∷ [] }, true) else (s, false)

-- Each name into the set, in turn.
unfoldable pub add_names : List Bytes → List Bytes → List Bytes
add_names [] set = set
add_names (name ∷ names) set = add_names names (add name set)

unfoldable pub any_member : List (Option Bytes) → List Bytes → Option Bool
any_member [] set = some false
any_member (none ∷ names) set = none
any_member (some name ∷ names) set =
    let rest = any_member names set in if member name set then some true else rest

module _ {V : Type 0} (lua : LuaApi V) where
  abbrev pub second : V × V → V
  second p = p.1

  -- The values of the table that the loops run over.
  abbrev pub values : List V → Option (List V)
  values args = elim (top args) [
    | none ↦ none
    | some v ↦ if is_table (lua.lua_type v) then some (map second (lua.lua_next v)) else none
  ]

  unfoldable pub has_role : Binding V
  has_role args = do
    check_any lua args 2
    k ← get_lcon lua args 1
    role ← check_string lua args 2
    con ← connection_of k
    answer (boolean (member role con.roles))

  abbrev pub expect_table : List V → Call (List Pushed) → Call (List Pushed)
  expect_table args go_on =
      if not (is_table (type_of lua args 2))
      then lua_error (codes "Expected table for argument 2.")
      else go_on

  -- The loop stops at the first role that is found.
  unfoldable pub has_any_role : Binding V
  unfolding any_member
  has_any_role args = do
    check_any lua args 2
    k ← get_lcon lua args 1
    con ← connection_of k
    expect_table args (
        or_call (values args)
          (λ vs.
            or_call (any_member (map lua.lua_tostring vs) con.roles)
              (λ found. answer (boolean found)) fault)
          fault)

  unfoldable pub add_role_binding : Binding V
  add_role_binding = write_string lua add_role

  unfoldable pub remove_role_binding : Binding V
  remove_role_binding = write_string lua remove_role

  -- The strings of the table go into a set of the connection, which keeps what it had.
  abbrev pub insert_strings : (List Bytes → Connection → Connection) → Binding V
  insert_strings f args = do
    check_any lua args 2
    k ← get_lcon lua args 1
    expect_table args (
        or_call (values args)
          (λ vs.
            or_call (each lua.lua_tostring vs) (λ names. do on_connection k (f names); nothing)
              fault)
          fault)

  unfoldable pub set_friends : Binding V
  unfolding add_names each
  set_friends = insert_strings (λ names con. record con { friends = add_names names con.friends })

  unfoldable pub set_ignores : Binding V
  unfolding add_names each
  set_ignores = insert_strings (λ names con. record con { ignores = add_names names con.ignores })

  unfoldable pub remove_friend : Binding V
  remove_friend = write_string lua (λ name con. record con { friends = remove name con.friends })

  unfoldable pub get_friends : Binding V
  get_friends = read_connection lua (λ con. array (strings con.friends) ∷ [])

  unfoldable pub get_ignores : Binding V
  get_ignores = read_connection lua (λ con. array (strings con.ignores) ∷ [])

  abbrev pub ignores_key : Connection → Bytes
  ignores_key con = lua.lua_integer_text con.account_id ++ codes ".ignores"

  -- The list in Redis is deleted and, if that was queued, pushed anew.
  unfoldable pub save_ignores : Bool → Bool → ℕ → Site → Site
  unfolding add_request
  save_ignores got got' k s =
      let con = s.heap.connections k in
      let key = ignores_key con in
      let (s', queued) =
        add_request got (record { method = redis_del; key = key; values = [] }) s in
      let push : RedisRequest = record { method = redis_lpush; key = key; values = con.ignores } in
      if queued then (add_request got' push s').0 else s'

  abbrev pub change_ignores : (Bytes → List Bytes → List Bytes) → Bool → Bool → Binding V
  change_ignores f got got' args = do
    check_any lua args 2
    k ← get_lcon lua args 1
    name ← check_string lua args 2
    on_connection k (λ con. record con { ignores = f name con.ignores })
    s ← get_site
    put_site (save_ignores got got' k s)
    nothing

  unfoldable pub add_ignore : Bool → Bool → Binding V
  unfolding save_ignores
  add_ignore = change_ignores add

  unfoldable pub remove_ignore : Bool → Bool → Binding V
  unfolding save_ignores
  remove_ignore = change_ignores remove

  unfoldable pub add_kinks : List V → List ℤ → List ℤ
  unfolding to_int
  add_kinks [] kinks = kinks
  add_kinks (v ∷ vs) kinks = add_kinks vs (add (to_int (given (pos 0) (lua.lua_tointeger v))) kinks)

  unfoldable pub set_kinks : Binding V
  unfolding add_kinks
  set_kinks args = do
    check_any lua args 2
    k ← get_lcon lua args 1
    expect_table args (
        or_call (values args)
          (λ vs. do
            on_connection k (λ con. record con { kink_list = add_kinks vs con.kink_list })
            nothing)
          fault)
