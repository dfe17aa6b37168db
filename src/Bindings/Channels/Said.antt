-- ===== src/Bindings/Channels/Said.antt =====
-- The bindings of src/lua_channel.cpp that send: to a channel's participants, and the lists of
-- channels and of a channel's participants to one connection.
use fserv.Prelude.{ℕ, ◌-◌, Bool, not, Option, List, [], ◌∷◌, ◌++◌, length, get_elem?, if◌then◌else◌}
use fserv.Prelude.Bytes.{Bytes, codes, c_str}
use fserv.Prelude.Int.{ℤ, pos, ◌+ℤ◌, ltb_ℤ}
use fserv.Prelude.Maps.{Map}
use fserv.Json.{Jansson, given, text}
use fserv.Connection.{Connection, from_string, send}
use fserv.Channel.{Channel}
use fserv.Channel.Saved.{mode_to_string}
use fserv.Rooms
use fserv.Rooms.{Heap}
use fserv.ServerState.Channels.{is_public}
use fserv.Bindings.{
  LuaApi, Cached, Site, Call, Binding, ◌>>=◌, ◌>>◌, pure, lua_error, fault, get_site, put_site,
  on_heap, on_connection, or_call, nothing, type_of, check_any, check_string, get_lchan, get_lcon,
}
use fserv.Bindings.Convert.{is_table, lua_to_json}
use fserv.Bindings.Channels.Fields.{is_ct_pubprivate}

-- The argument at the top of the stack.
abbrev pub top {ℓ} : {A : Type ℓ} → List A → Option A
top args = get_elem? args (length args - 1)

abbrev pub send_to : ℕ → Bytes → Call (Unit {0})
send_to k message = on_connection k (λ con. (send message con).0)

module _ {V : Type 0} (lua : LuaApi V) where
  unfoldable pub send_to_all_raw : Binding V
  send_to_all_raw args = do
    check_any lua args 2
    chan ← get_lchan lua args 1
    message ← check_string lua args 2
    on_heap (Rooms.send_to_all chan message)
    nothing

  unfoldable pub send_to_channel_raw : Binding V
  send_to_channel_raw args = do
    check_any lua args 3
    chan ← get_lchan lua args 1
    con ← get_lcon lua args 2
    message ← check_string lua args 3
    on_heap (Rooms.send_to_channel chan con message)
    nothing

module _ {V J : Type 0} (lua : LuaApi V) (j : Jansson J) (real : V → J) (depth : ℕ) where
  -- The prefix and the table at the top of the stack as the text of a message; `n` is the index at
  -- which a table is asked for.
  abbrev pub check_message : List V → Bytes → ℕ → Bytes → Call Bytes
  check_message args prefix n message =
      if not (is_table (type_of lua args n))
      then lua_error message
      else or_call (lua_to_json lua j real depth (top args))
          (λ root. pure (prefix ++ codes " " ++ c_str (j.json_dumps root))) fault

  unfoldable pub send_to_all : Binding V
  send_to_all args = do
    check_any lua args 3
    chan ← get_lchan lua args 1
    prefix ← check_string lua args 2
    message ← check_message args prefix 3 (codes "sendtoall expects a table as argument 3.")
    on_heap (Rooms.send_to_all chan message)
    nothing

  unfoldable pub send_to_channel : Binding V
  send_to_channel args = do
    check_any lua args 4
    chan ← get_lchan lua args 1
    con ← get_lcon lua args 2
    prefix ← check_string lua args 3
    message ← check_message args prefix 4 (codes "sendtochannel expects a table as argument 4.")
    on_heap (Rooms.send_to_channel chan con message)
    nothing

module _ {J : Type 0} (j : Jansson J) where
  abbrev identities : (ℕ → Connection) → List ℕ → List J
  identities cons [] = []
  identities cons (k ∷ ks) =
      j.json_object ((codes "identity", text j (cons k).character_name) ∷ []) ∷ identities cons ks

  abbrev pub channel_text : Channel → (ℕ → Connection) → Bytes
  channel_text ch cons =
      codes "ICH "
      ++ c_str (
          j.json_dumps (
            j.json_object (
              (codes "channel", text j ch.name)
              ∷ (codes "mode", text j (mode_to_string ch.chat_mode))
              ∷ (codes "users", j.json_array (identities cons ch.participants))
              ∷ [])))

  unfoldable pub send_ich : {V : Type 0} → LuaApi V → Binding V
  send_ich lua args = do
    check_any lua args 2
    chan ← get_lchan lua args 1
    con ← get_lcon lua args 2
    s ← get_site
    send_to con (from_string (channel_text (s.heap.channels chan) s.heap.connections))
    nothing

  abbrev public_node : Channel → J
  public_node ch = j.json_object (
      (codes "name", text j ch.name)
      ∷ (codes "mode", text j (mode_to_string ch.chat_mode))
      ∷ (codes "characters", j.json_integer ch.participant_count)
      ∷ [])

  -- `json_string` in both places.
  abbrev private_node : Channel → J
  private_node ch = j.json_object (
      (codes "name", text j ch.name)
      ∷ (
        codes "title",
        given (text j (codes "This channel had an invalid title. This is a safe default."))
            (j.json_string_checked (c_str ch.title)),
      )
      ∷ (codes "characters", j.json_integer ch.participant_count)
      ∷ [])

  -- The nodes of the channels that are wanted.
  unfoldable pub channel_nodes :
      (Channel → Bool) → (Channel → J) → (ℕ → Channel) → Map Bytes ℕ → List J
  channel_nodes wanted node chans [] = []
  channel_nodes wanted node chans ((name, c) ∷ m) =
      let rest = channel_nodes wanted node chans m in
      if wanted (chans c) then node (chans c) ∷ rest else rest

  abbrev pub list_text : Bytes → List J → Bytes
  list_text prefix nodes =
      prefix ++ c_str (j.json_dumps (j.json_object ((codes "channels", j.json_array nodes) ∷ [])))

  abbrev pub public_text : Site → Bytes
  public_text s =
      list_text (codes "CHA ")
        (channel_nodes is_public public_node s.heap.channels s.state.channel_map)

  abbrev is_open : Channel → Bool
  is_open ch = is_ct_pubprivate ch.type

  abbrev pub private_text : Site → Bytes
  private_text s =
      list_text (codes "ORS ")
        (channel_nodes is_open private_node s.heap.channels s.state.channel_map)

  -- For thirty seconds the message is the one that was made last. `now` and `later` are the two
  -- calls of `time`.
  abbrev pub refreshed : ℤ → ℤ → Bytes → Cached → Cached
  refreshed now later fresh c =
      if ltb_ℤ now c.cache_time
      then c
      else record { cache_time = later +ℤ pos 30; cached_message = from_string fresh }

  unfoldable pub send_cha : {V : Type 0} → LuaApi V → ℤ → ℤ → Binding V
  unfolding channel_nodes
  send_cha lua now later args = do
    check_any lua args 1
    con ← get_lcon lua args 1
    s ← get_site
    let c = refreshed now later (public_text s) s.public_list
    put_site (record s { public_list = c })
    send_to con c.cached_message
    nothing

  unfoldable pub send_ors : {V : Type 0} → LuaApi V → ℤ → ℤ → Binding V
  unfolding channel_nodes
  send_ors lua now later args = do
    check_any lua args 1
    con ← get_lcon lua args 1
    s ← get_site
    let c = refreshed now later (private_text s) s.private_list
    put_site (record s { private_list = c })
    send_to con c.cached_message
    nothing
