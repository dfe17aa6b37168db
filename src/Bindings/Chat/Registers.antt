-- ===== src/Bindings/Chat/Registers.antt =====
-- The bindings of src/lua_chat.cpp for the operators, bans and timeouts. Each change is saved.
use fserv.Prelude.{Bool, false, not, Option, none, some, [], ◌∷◌, if◌then◌else◌}
use fserv.Prelude.Bytes.{Bytes}
use fserv.Prelude.Int.{ℤ, pos, ◌-ℤ◌, ltb_ℤ}
use fserv.Prelude.Maps.{bytes_eq, remove}
use fserv.Json.{Jansson, given}
use fserv.ServerState.{ServerState}
use fserv.ServerState.Lists
use fserv.ServerState.Lists.{is_op}
use fserv.ServerState.Channels.{is_channel_op}
use fserv.ServerState.Saved.{save_ops, save_bans, save_channels, load_ops, load_bans, add_super_cop}
use fserv.Bindings.{
  LuaApi, Item, boolean, integer, item, array, Site, Binding, ◌>>=◌, ◌>>◌, pure, get_site, put_site,
  on_state, connection_of, nothing, answer, to_boolean, check_any, check_string, check_integer,
  get_lcon,
}
use fserv.Bindings.Channels.Members.{strings}

abbrev pub remove_super_cop : Bytes → ServerState → ServerState
remove_super_cop op s = record s { super_cop_list = remove op s.super_cop_list }

abbrev is_running : ℤ → Option ℤ → Bool
is_running now none = false
is_running now (some end) = not (ltb_ℤ end now)

module _ {V : Type 0} (lua : LuaApi V) where
  -- The bindings that answer from the registers alone.
  abbrev from_state : (ServerState → Item) → Binding V
  from_state f args = do s ← get_site; answer (f s.state)

  unfoldable pub get_user_count : Binding V
  get_user_count = from_state (λ s. integer s.user_count)

  unfoldable pub get_op_list : Binding V
  get_op_list args = do s ← get_site; pure (array (strings s.state.op_list) ∷ [])

  unfoldable pub get_time : ℤ → Binding V
  get_time now args = answer (integer now)

  unfoldable pub is_op_binding : Binding V
  is_op_binding args = do
    check_any lua args 1
    name ← check_string lua args 1
    s ← get_site
    answer (boolean (is_op name s.state))

  unfoldable pub is_chan_op : Binding V
  is_chan_op args = do
    check_any lua args 1
    k ← get_lcon lua args 1
    s ← get_site
    answer (boolean (is_channel_op (s.heap.connections k).character_name s.state))

  unfoldable pub is_banned : Binding V
  is_banned args = do
    check_any lua args 1
    k ← get_lcon lua args 1
    s ← get_site
    answer (boolean (Lists.is_banned (s.heap.connections k).account_id s.state))

  -- `end` keeps its 0 without a timeout. `now` and `later` are the two calls of `time`.
  unfoldable pub is_timed_out : ℤ → ℤ → Binding V
  is_timed_out now later args = do
    check_any lua args 1
    k ← get_lcon lua args 1
    s ← get_site
    let found = Lists.is_timed_out (s.heap.connections k).account_id s.state
    let end = given (pos 0) found
    pure (item (boolean (is_running now found)) ∷ item (integer (end -ℤ later)) ∷ [])

module _ {V J : Type 0} (lua : LuaApi V) (j : Jansson J) (writable : Bytes → Bool) where
  abbrev pub saved_ops : Site → Site
  saved_ops s = record s { files = save_ops j writable s.state s.files }

  abbrev pub saved_bans : ℤ → Site → Site
  saved_bans now s =
      let (state, files) = save_bans j writable now s.state s.files in
      record s { state = state; files = files }

  -- A name is put in or taken off a list, and the lists of operators are saved.
  abbrev change_ops : (Bytes → ServerState → ServerState) → Binding V
  change_ops f args = do
    check_any lua args 1
    name ← check_string lua args 1
    on_state (f name)
    s ← get_site
    put_site (saved_ops s)
    nothing

  unfoldable pub add_op : Binding V
  add_op = change_ops Lists.add_op

  unfoldable pub remove_op : Binding V
  remove_op = change_ops Lists.remove_op

  unfoldable pub add_scop : Binding V
  add_scop = change_ops add_super_cop

  unfoldable pub remove_scop : Binding V
  remove_scop = change_ops remove_super_cop

  unfoldable pub add_ban : ℤ → Binding V
  add_ban now args = do
    check_any lua args 1
    k ← get_lcon lua args 1
    con ← connection_of k
    on_state (Lists.add_ban con.character_name_lower con.account_id)
    s ← get_site
    put_site (saved_bans now s)
    nothing

  unfoldable pub remove_ban : ℤ → Binding V
  remove_ban now args = do
    check_any lua args 1
    character ← check_string lua args 1
    s ← get_site
    let (state, ret) = Lists.remove_ban character s.state
    put_site (saved_bans now (record s { state = state }))
    answer (boolean ret)

  -- `now` is the call of `time` for the timeout, `later` the one of the saving.
  unfoldable pub add_timeout : ℤ → ℤ → Binding V
  add_timeout now later args = do
    check_any lua args 2
    k ← get_lcon lua args 1
    length ← check_integer lua args 2
    con ← connection_of k
    on_state (Lists.add_timeout now con.character_name_lower con.account_id length)
    s ← get_site
    put_site (saved_bans later s)
    nothing

  unfoldable pub remove_timeout : ℤ → Binding V
  remove_timeout now args = do
    check_any lua args 1
    name ← check_string lua args 1
    on_state (Lists.remove_timeout name)
    s ← get_site
    put_site (saved_bans now s)
    nothing

  abbrev saved_channels_too : ℤ → Site → Site
  saved_channels_too now s = record s {
    files = save_channels j writable now s.heap s.state s.files;
  }

  abbrev loaded : Site → Site
  loaded s = record s { state = load_ops j s.files (load_bans j s.files s.state) }

  -- Up to the loading of the startup configuration and the list of load balancers.
  unfoldable pub reload : ℤ → ℤ → Binding V
  reload now later args = do
    check_any lua args 1
    s ← get_site
    let saved = saved_channels_too later (saved_ops (saved_bans now s))
    put_site (loaded (if to_boolean lua args 1 then saved else s))
    nothing
