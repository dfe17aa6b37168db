-- ===== src/Bindings/Channels/Fields.antt =====
-- The bindings of src/lua_channel.cpp that read or write one field of a channel.
use fserv.Prelude.{Bool, true, false, ◌&&◌, not, if◌then◌else◌}
use fserv.Prelude.Bytes.{Bytes, codes, eq_bytes, c_str}
use fserv.Prelude.Int.{◌-ℤ◌, ltb_ℤ}
use fserv.Connection.{Ticks}
use fserv.Channel
use fserv.Channel.{
  Channel, ChannelType, ct_public, ct_private, ct_pubprivate, ChannelMessageMode, cmm_both,
  cmm_ads_only, cmm_chat_only, get_timer_entry, set_timer_entry,
}
use fserv.Channel.Saved.{mode_to_string, type_to_string}
use fserv.Bindings.{
  LuaApi, LuaType, lua_tboolean, Item, boolean, integer, string, Binding, ◌>>=◌, ◌>>◌, lua_error,
  on_channel, channel_of, connection_of, nothing, answer, type_of, to_boolean, check_any,
  check_string, check_number, get_lchan, get_lcon,
}

abbrev pub is_boolean : LuaType → Bool
is_boolean lua_tboolean = true
is_boolean _ = false

abbrev pub is_ct_private : ChannelType → Bool
is_ct_private ct_private = true
is_ct_private _ = false

abbrev pub is_ct_pubprivate : ChannelType → Bool
is_ct_pubprivate ct_pubprivate = true
is_ct_pubprivate _ = false

module _ {V : Type 0} (lua : LuaApi V) where
  -- The bindings that answer from the channel alone.
  abbrev pub read_field : (Channel → Item) → Binding V
  read_field f args = do
    check_any lua args 1
    chan ← get_lchan lua args 1
    ch ← channel_of chan
    answer (f ch)

  unfoldable pub get_name : Binding V
  get_name = read_field (λ ch. string (c_str ch.name))

  unfoldable pub get_user_count : Binding V
  get_user_count = read_field (λ ch. integer ch.participant_count)

  unfoldable pub get_top_user_count : Binding V
  get_top_user_count = read_field (λ ch. integer ch.top_users)

  unfoldable pub get_type : Binding V
  get_type = read_field (λ ch. string (type_to_string ch.type))

  unfoldable pub get_mode : Binding V
  get_mode = read_field (λ ch. string (mode_to_string ch.chat_mode))

  unfoldable pub get_description : Binding V
  get_description = read_field (λ ch. string (c_str ch.description))

  unfoldable pub get_title : Binding V
  get_title = read_field (λ ch. string (c_str ch.title))

  unfoldable pub can_destroy : Binding V
  can_destroy = read_field (λ ch. boolean ch.can_destroy)

  -- The bindings that write a text.
  abbrev pub write_text : (Bytes → Channel → Channel) → Binding V
  write_text f args = do
    check_any lua args 2
    chan ← get_lchan lua args 1
    text ← check_string lua args 2
    on_channel chan (f text)
    nothing

  unfoldable pub set_description : Binding V
  set_description = write_text Channel.set_description

  unfoldable pub set_title : Binding V
  set_title = write_text Channel.set_title

  abbrev pub mode_of : Bytes → ChannelMessageMode
  mode_of mode =
      if eq_bytes mode (codes "ads")
      then cmm_ads_only
      else if eq_bytes mode (codes "chat")
      then cmm_chat_only
      else cmm_both

  unfoldable pub set_mode : Binding V
  set_mode = write_text (λ mode. Channel.set_mode (mode_of mode))

  unfoldable pub set_public : Binding V
  set_public args = do
    check_any lua args 2
    chan ← get_lchan lua args 1
    ch ← channel_of chan
    let bepublic = to_boolean lua args 2
    if not (is_boolean (type_of lua args 2))
        then lua_error (codes "setpublic expects boolean for argument 2.")
        else if not (is_ct_private ch.type) && not (is_ct_pubprivate ch.type)
        then lua_error (codes "Channel provided was not a private channel.")
        else do on_channel chan (Channel.set_public bepublic); nothing

  -- The owner is a connection's character.
  unfoldable pub set_owner : Binding V
  set_owner args = do
    check_any lua args 2
    chan ← get_lchan lua args 1
    k ← get_lcon lua args 2
    con ← connection_of k
    on_channel chan (Channel.set_owner con.character_name)
    nothing

  -- `time` is `Server::getEventTime()`.
  unfoldable pub check_update_timer : Ticks → Binding V
  check_update_timer time args = do
    check_any lua args 3
    chan ← get_lchan lua args 1
    k ← get_lcon lua args 2
    timeout ← check_number lua args 3
    ch ← channel_of chan
    con ← connection_of k
    if ltb_ℤ (time -ℤ timeout) (get_timer_entry con ch)
        then answer (boolean true)
        else do on_channel chan (set_timer_entry con time); answer (boolean false)
