-- ===== src/Bindings/Chat/Broadcast.antt =====
-- The bindings of src/lua_chat.cpp that send one message to many connections.
use fserv.Prelude.{ℕ, not, none, some, List, [], ◌∷◌, if◌then◌else◌}
use fserv.Prelude.Bytes.{Bytes, codes, lowered}
use fserv.Prelude.Maps.{Map}
use fserv.Json.{Jansson}
use fserv.Connection.{from_string}
use fserv.Rooms.{send_each}
use fserv.ServerState.{ServerState, get_connection}
use fserv.ServerState.Lists.{add_staff_call_target}
use fserv.Bindings.{
  LuaApi, Site, Binding, ◌>>=◌, ◌>>◌, lua_error, get_site, put_site, on_state, nothing, type_of,
  check_any, check_string, get_lcon,
}
use fserv.Bindings.Channels.Said.{check_message}
use fserv.Bindings.Convert.{is_table}

abbrev pub registered : Map Bytes ℕ → List ℕ
registered [] = []
registered ((name, k) ∷ m) = k ∷ registered m

-- The operators' names, in lower case, that are registered.
unfoldable pub op_connections : ServerState → List Bytes → List ℕ
op_connections s [] = []
op_connections s (op ∷ ops) = elim (get_connection (lowered op) s) [
  | none ↦ op_connections s ops
  | some k ↦ k ∷ op_connections s ops
]

abbrev pub send_each_to : List ℕ → Bytes → Site → Site
send_each_to ks message s = record s {
  heap = record (s.heap) { connections = send_each (from_string message) ks s.heap.connections };
}

module _ {V : Type 0} (lua : LuaApi V) where
  unfoldable pub broadcast_raw : Binding V
  broadcast_raw args = do
    check_any lua args 1
    message ← check_string lua args 1
    s ← get_site
    put_site (send_each_to (registered s.state.connection_map) message s)
    nothing

  unfoldable pub add_to_staff_call_targets : Binding V
  add_to_staff_call_targets args = do
    check_any lua args 1
    k ← get_lcon lua args 1
    on_state (add_staff_call_target k)
    nothing

module _ {V J : Type 0} (lua : LuaApi V) (j : Jansson J) (real : V → J) (depth : ℕ) where
  -- The table is asked for before the prefix.
  abbrev pub broadcast_to : (Site → List ℕ) → Bytes → Binding V
  broadcast_to whom error args = do
    check_any lua args 2
    if not (is_table (type_of lua args 2)) then lua_error error else do
      prefix ← check_string lua args 1
      message ← check_message lua j real depth args prefix 2 error
      s ← get_site
      put_site (send_each_to (whom s) message s)
      nothing

  unfoldable pub broadcast : Binding V
  broadcast =
      broadcast_to (λ s. registered s.state.connection_map)
        (codes "broadcast requires a table as the second argument.")

  unfoldable pub broadcast_ops : Binding V
  unfolding op_connections
  broadcast_ops =
      broadcast_to (λ s. op_connections s.state s.state.op_list)
        (codes "broadcastOps requires a table as the second argument.")

  unfoldable pub broadcast_staff_call : Binding V
  broadcast_staff_call =
      broadcast_to (λ s. s.state.staff_call_targets)
        (codes "broadcastStaffCall requires a table as the second argument.")
