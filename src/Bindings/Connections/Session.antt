-- ===== src/Bindings/Connections/Session.antt =====
-- The bindings of src/lua_connection.cpp that find a connection, name it, close it and send to it.
use fserv.Prelude.{
  ℕ, ◌/◌, suc, ◌==◌, Bool, true, false, Option, none, some, List, [], ◌∷◌, ◌++◌, length,
  if◌then◌else◌,
}
use fserv.Prelude.Bytes.{Bytes, codes, c_str}
use fserv.Prelude.Int.{ℤ, pos, sub_ℕ, negsuc, eq_ℤ}
use fserv.Prelude.Maps.{Map}
use fserv.Json.{Jansson}
use fserv.LuaConstants
use fserv.LuaConstants.{send_error_message}
use fserv.Connection.{Connection, Ticks, from_string, set_delay_close}
use fserv.Rooms.{with_connection}
use fserv.ServerState
use fserv.ServerState.{
  add_connection, remove_connection, add_unidentified, removed_unidentified,
  get_connection_ip_count,
}
use fserv.Bindings.{
  LuaApi, Item, boolean, integer, connection, redis_sadd, Site, Pushed, item, array, Binding, ◌>>=◌,
  ◌>>◌, pure, fault, get_site, put_site, on_connection, or_call, nothing, answer, check_any,
  check_string, check_integer, check_number, get_lcon,
}
use fserv.Bindings.Convert.{lua_to_json}
use fserv.Bindings.Channels.Said.{top, send_to}
use fserv.Bindings.Connections.Sets.{add_request}

-- The cast of a `double` to `int`, towards zero, for what fits.
abbrev pub truncated : Ticks → ℤ
truncated (pos n) = pos (n / 1_000_000)
truncated (negsuc n) = sub_ℕ 0 (suc n / 1_000_000)

-- `Redis::onlineUsersKey`
abbrev pub online_users_key : Bytes
online_users_key = codes "users.online"

-- The registered connections of an account.
unfoldable pub of_account : ℤ → (ℕ → Connection) → Map Bytes ℕ → List Item
of_account id cons [] = []
of_account id cons ((name, k) ∷ m) =
    let rest = of_account id cons m in
    if eq_ℤ (cons k).account_id id then connection k ∷ rest else rest

-- The branch of `setIdent` for a connection that is not identified.
unfoldable pub identify : Bool → ℕ → Bytes → Bytes → Site → Site
unfolding add_request
identify got k name lowername s =
    let h =
      with_connection k
        (λ con. record con {
          identified = true;
          character_name = name;
          character_name_lower = lowername;
        })
        s.heap in
    let named = record s {
      heap = h;
      state = removed_unidentified k (add_connection h lowername k s.state);
    } in
    (add_request got (record { method = redis_sadd; key = online_users_key; values = name ∷ [] })
      named).0

-- `closef`
unfoldable pub force_close : ℕ → Site → Site
force_close k s =
    let h = with_connection k (λ con. record (set_delay_close con) { identified = false }) s.heap in
    record s {
      heap = h;
      state =
          remove_connection h (h.connections k).character_name_lower (add_unidentified k s.state);
    }

module _ {V : Type 0} (lua : LuaApi V) where
  abbrev found : Option ℕ → List Pushed
  found none = item (boolean false) ∷ []
  found (some k) = item (boolean true) ∷ item (connection k) ∷ []

  unfoldable pub get_connection : Binding V
  get_connection args = do
    check_any lua args 1
    conname ← check_string lua args 1
    s ← get_site
    pure (found (ServerState.get_connection conname s.state))

  unfoldable pub get_ip_count : Binding V
  get_ip_count args = do
    check_any lua args 1
    k ← get_lcon lua args 1
    s ← get_site
    let (state, n) = get_connection_ip_count s.heap k s.state
    put_site (record s { state = state })
    answer (integer n)

  unfoldable pub get_by_account : Binding V
  unfolding of_account
  get_by_account args = do
    check_any lua args 1
    k ← get_lcon lua args 1
    s ← get_site
    let id = (s.heap.connections k).account_id
    pure (array (of_account id s.heap.connections s.state.connection_map) ∷ [])

  unfoldable pub get_by_account_id : Binding V
  unfolding of_account
  get_by_account_id args = do
    check_any lua args 1
    accountid ← check_integer lua args 1
    s ← get_site
    pure (array (of_account accountid s.heap.connections s.state.connection_map) ∷ [])

  unfoldable pub send_raw : Binding V
  send_raw args = do
    check_any lua args 2
    k ← get_lcon lua args 1
    message ← check_string lua args 2
    send_to k (from_string message)
    nothing

  unfoldable pub close : Binding V
  close args = do
    check_any lua args 1
    k ← get_lcon lua args 1
    on_connection k set_delay_close
    nothing

  unfoldable pub closef : Binding V
  unfolding force_close
  closef args = do
    check_any lua args 1
    k ← get_lcon lua args 1
    s ← get_site
    put_site (force_close k s)
    nothing

  unfoldable pub set_ident : Bool → Binding V
  unfolding identify
  set_ident got args = do
    check_any lua args 3
    k ← get_lcon lua args 1
    name ← check_string lua args 2
    lowername ← check_string lua args 3
    s ← get_site
    if (s.heap.connections k).identified
        then answer (boolean false)
        else do put_site (identify got k name lowername s); answer (boolean true)

module _ {V J : Type 0} (lua : LuaApi V) (j : Jansson J) where
  -- With a third argument and no more, that is the message.
  unfoldable pub send_error : Binding V
  send_error args = do
    check_any lua args 2
    k ← get_lcon lua args 1
    code ← check_number lua args 2
    if length args == 3
        then (do
          message ← check_string lua args 3
          on_connection k (send_error_message j (truncated code) message)
          nothing)
        else do on_connection k (LuaConstants.send_error j (truncated code)); nothing

  unfoldable pub send : (V → J) → ℕ → Binding V
  send real depth args = do
    check_any lua args 3
    k ← get_lcon lua args 1
    prefix ← check_string lua args 2
    or_call (lua_to_json lua j real depth (top args))
        (λ root. do
          send_to k (from_string (prefix ++ codes " " ++ c_str (j.json_dumps root)))
          nothing)
        fault
