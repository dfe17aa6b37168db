-- ===== src/Bindings/Connections/Fields.antt =====
-- The bindings of src/lua_connection.cpp that read or write a field of a connection.
use fserv.Prelude.{
  ℕ, Bool, true, false, not, Option, none, some, List, [], ◌∷◌, length, if◌then◌else◌,
}
use fserv.Prelude.Bytes.{Bytes, codes, c_str}
use fserv.Prelude.Int.{ℤ, pos, ◌-ℤ◌, ltb_ℤ}
use fserv.Prelude.Maps.{Map, bytes_eq, lookup, insert}
use fserv.Json.{given}
use fserv.Connection.{Connection, Ticks}
use fserv.Bindings.{
  LuaApi, LuaType, lua_tstring, Item, nil, boolean, integer, string, channel, Pushed, item, array,
  table, Call, Binding, ◌>>=◌, ◌>>◌, pure, lua_error, on_connection, connection_of, nothing, answer,
  type_of, to_boolean, check_any, check_string, check_integer, check_number, get_lcon,
}
use fserv.Bindings.Channels.Fields.{is_boolean}
use fserv.Bindings.Channels.Members.{add_role, remove_role}

abbrev pub channels : List ℕ → List Item
channels [] = []
channels (c ∷ cs) = channel c ∷ channels cs

abbrev pub fields : Map Bytes Bytes → List (Bytes × Item)
fields [] = []
fields ((k, v) ∷ m) = (c_str k, string (c_str v)) ∷ fields m

abbrev pub is_string : LuaType → Bool
is_string lua_tstring = true
is_string _ = false

abbrev pub flag_role : Bytes → Bool → Connection → Connection
flag_role role newflag con = if newflag then add_role role con else remove_role role con

module _ {V : Type 0} (lua : LuaApi V) where
  abbrev pub read_connection : (Connection → List Pushed) → Binding V
  read_connection f args = do
    check_any lua args 1
    k ← get_lcon lua args 1
    con ← connection_of k
    pure (f con)

  unfoldable pub get_connection_ids : Binding V
  get_connection_ids =
      read_connection (λ con. item (integer con.account_id) ∷ item (integer con.character_id) ∷ [])

  unfoldable pub get_name : Binding V
  get_name = read_connection (λ con. item (string (c_str con.character_name)) ∷ [])

  unfoldable pub get_channel_count : Binding V
  get_channel_count = read_connection (λ con. item (integer (pos (length con.channel_list))) ∷ [])

  unfoldable pub get_channels : Binding V
  get_channels = read_connection (λ con. array (channels con.channel_list) ∷ [])

  unfoldable pub is_admin : Binding V
  is_admin = read_connection (λ con. item (boolean con.admin) ∷ [])

  unfoldable pub is_global_moderator : Binding V
  is_global_moderator = read_connection (λ con. item (boolean con.global_moderator) ∷ [])

  unfoldable pub get_gender : Binding V
  get_gender = read_connection (λ con. item (string (c_str con.gender)) ∷ [])

  unfoldable pub get_status : Binding V
  get_status =
      read_connection
        (λ con. item (string (c_str con.status)) ∷ item (string (c_str con.status_message)) ∷ [])

  unfoldable pub get_custom_kinks : Binding V
  get_custom_kinks = read_connection (λ con. table (fields con.custom_kink_map) ∷ [])

  unfoldable pub get_info_tags : Binding V
  get_info_tags = read_connection (λ con. table (fields con.infotag_map) ∷ [])

  unfoldable pub get_kinks : Binding V
  get_kinks args = lua_error (codes "Not implemented.")

  abbrev write_integer : (ℤ → Connection → Connection) → Binding V
  write_integer f args = do
    check_any lua args 2
    k ← get_lcon lua args 1
    n ← check_integer lua args 2
    on_connection k (f n)
    nothing

  unfoldable pub set_account_id : Binding V
  set_account_id = write_integer (λ n con. record con { account_id = n })

  unfoldable pub set_character_id : Binding V
  set_character_id = write_integer (λ n con. record con { character_id = n })

  -- A flag, and the role that goes with it.
  abbrev write_flag : (Bool → Connection → Connection) → Binding V
  write_flag f args = do
    check_any lua args 2
    k ← get_lcon lua args 1
    if not (is_boolean (type_of lua args 2))
        then lua_error (codes "Expected boolean for argument 2.")
        else do on_connection k (f (to_boolean lua args 2)); nothing

  unfoldable pub set_admin : Binding V
  set_admin =
      write_flag (λ newflag con. flag_role (codes "admin") newflag (record con { admin = newflag }))

  unfoldable pub set_global_moderator : Binding V
  set_global_moderator = write_flag (λ newflag con.
      flag_role (codes "global") newflag (record con { global_moderator = newflag }))

  abbrev pub write_string : (Bytes → Connection → Connection) → Binding V
  write_string f args = do
    check_any lua args 2
    k ← get_lcon lua args 1
    text ← check_string lua args 2
    on_connection k (f text)
    nothing

  unfoldable pub set_gender : Binding V
  set_gender = write_string (λ gender con. record con { gender = gender })

  -- The message is set where the third argument is a string.
  abbrev status_message : List V → Connection → Call Bytes
  status_message args con =
      if is_string (type_of lua args 3) then check_string lua args 3 else pure con.status_message

  unfoldable pub set_status : Binding V
  set_status args = do
    check_any lua args 3
    k ← get_lcon lua args 1
    status ← check_string lua args 2
    con ← connection_of k
    message ← status_message args con
    on_connection k (λ c. record c { status = status; status_message = message })
    nothing

  unfoldable pub set_misc_data : Binding V
  set_misc_data args = do
    check_any lua args 3
    k ← get_lcon lua args 1
    key ← check_string lua args 2
    value ← check_string lua args 3
    on_connection k (λ con. record con { misc_map = insert key value con.misc_map })
    nothing

  abbrev misc_item : Option Bytes → Item
  misc_item none = nil
  misc_item (some value) = string (c_str value)

  unfoldable pub get_misc_data : Binding V
  get_misc_data args = do
    check_any lua args 2
    k ← get_lcon lua args 1
    key ← check_string lua args 2
    con ← connection_of k
    answer (misc_item (lookup key con.misc_map))

  abbrev pub timer_of : Bytes → Connection → Ticks
  timer_of timer con = given (pos 0) (lookup timer con.timers)

  abbrev set_timer : Bytes → Ticks → Connection → Connection
  set_timer timer time con = record con { timers = insert timer time con.timers }

  -- The `[]` leaves a 0 under a timer that was missing. `time` is `Server::getEventTime()`.
  unfoldable pub check_update_timer : Ticks → Binding V
  check_update_timer time args = do
    check_any lua args 3
    k ← get_lcon lua args 1
    timer ← check_string lua args 2
    timeout ← check_number lua args 3
    con ← connection_of k
    let running = ltb_ℤ (time -ℤ timeout) (timer_of timer con)
    on_connection k (set_timer timer (if running then timer_of timer con else time))
    answer (boolean running)
