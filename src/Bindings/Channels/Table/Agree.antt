-- ===== src/Bindings/Channels/Table/Agree.antt =====
-- The module `c` of the scripts keeps channels and connections in agreement.
use fserv.Prelude.{ℕ, ◌≡◌, true, not, some, List, [], ◌∷◌, All}
use fserv.Prelude.Bytes.{Bytes, codes, c_str, eq_bytes}
use fserv.Prelude.Int.{ℤ}
use fserv.Prelude.Maps.{member, lookup, bytes_eq}
use fserv.Json.{Jansson}
use fserv.Connection.{Ticks}
use fserv.Bindings.{LuaApi, Binding, Site, string, integer, boolean}
use fserv.Channel.Saved.{type_to_string, mode_to_string}
use fserv.Bindings.Channels.Fields
use fserv.Bindings.Channels.Sound.Calls.{Good, After, Keeps}
use fserv.Bindings.Channels.Sound.Answers.{
  ban-Keeps, check_update_timer-Keeps, get_ban-Keeps, get_ban_count-Keeps, get_ban_list-Keeps,
  is_banned-Keeps, read_field-Keeps, set_description-Keeps, set_mode-Keeps, set_owner-Keeps,
  set_public-Keeps, set_title-Keeps, timeout-Keeps, unban-Keeps,
}
use fserv.Bindings.Channels.Sound.Changes.{
  add_mod-Keeps, create_channel-Keeps, create_special_private_channel-Keeps, get_bottle_list-Keeps,
  get_channel-Keeps, get_mod_list-Keeps, in_channel-Keeps, invite-Keeps, is_invited-Keeps,
  is_mod-Keeps, is_owner-Keeps, remove_invite-Keeps, remove_mod-Keeps, send_to_all_raw-Keeps,
  send_to_channel_raw-Keeps,
}
use fserv.Bindings.Channels.Sound.Sends.{
  create_private_channel-Keeps, destroy_channel-Keeps, send_cha-Keeps, send_ich-Keeps,
  send_ors-Keeps, send_to_all-Keeps, send_to_channel-Keeps,
}
use fserv.Bindings.Channels.Table.{luachannel_funcs, lookup-All, exempt, ◌&◌}

-- The two functions whose caller has to know whether the connection is in the channel.
abbrev pub entering_or_leaving : List Bytes
entering_or_leaving = codes "join" ∷ codes "part" ∷ []

module _ {V J : Type 0} (lua : LuaApi V) (j : Jansson J) (real : V → J)
    (sha1_hash_string : Bytes → Bytes) (event_text : Bytes) (long_text : ℤ → Bytes) (depth fuel : ℕ)
    (now later : ℤ) (event_time : Ticks) where
  entries_lem :
      All
        (λ entry.
          not (member entry.0 entering_or_leaving) ≡ true → (args : List V) → Keeps (entry.1 args))
        (luachannel_funcs lua j real sha1_hash_string event_text long_text depth fuel now later
          event_time)
  unfolding luachannel_funcs member eq_bytes Fields.can_destroy Fields.get_description
      Fields.get_mode Fields.get_name Fields.get_title Fields.get_top_user_count Fields.get_type
      Fields.get_user_count
  entries_lem =
      (λ other args. send_cha-Keeps lua args j now later)
      & (λ other args. send_ors-Keeps lua args j now later)
      & (λ other args. get_channel-Keeps lua args)
      & (λ other args. read_field-Keeps lua args λ ch. string (c_str ch.name))
      & (λ other args. read_field-Keeps lua args λ ch. integer ch.participant_count)
      & (λ other args. read_field-Keeps lua args λ ch. integer ch.top_users)
      & (λ other args. create_channel-Keeps lua args)
      & (λ other args.
          create_private_channel-Keeps sha1_hash_string event_text long_text lua fuel args)
      & (λ other args. create_special_private_channel-Keeps lua args)
      & (λ other args. destroy_channel-Keeps lua args j now)
      & (λ other args. send_to_all-Keeps lua args j real depth)
      & (λ other args. send_to_all_raw-Keeps lua args)
      & (λ other args. send_to_channel-Keeps lua args j real depth)
      & (λ other args. send_to_channel_raw-Keeps lua args)
      & (λ other args. send_ich-Keeps lua args j)
      & (λ other. exempt other)
      & (λ other. exempt other)
      & (λ other args. ban-Keeps lua args now)
      & (λ other args. timeout-Keeps lua args now later)
      & (λ other args. unban-Keeps lua args)
      & (λ other args. is_banned-Keeps lua args now)
      & (λ other args. get_ban-Keeps lua args)
      & (λ other args. get_ban_list-Keeps lua args now)
      & (λ other args. get_ban_count-Keeps lua args now)
      & (λ other args. invite-Keeps lua args)
      & (λ other args. remove_invite-Keeps lua args)
      & (λ other args. is_invited-Keeps lua args)
      & (λ other args. in_channel-Keeps lua args)
      & (λ other args. add_mod-Keeps lua args now)
      & (λ other args. remove_mod-Keeps lua args)
      & (λ other args. is_mod-Keeps lua args)
      & (λ other args. is_owner-Keeps lua args)
      & (λ other args. get_mod_list-Keeps lua args)
      & (λ other args. check_update_timer-Keeps lua args event_time)
      & (λ other args. read_field-Keeps lua args λ ch. string (type_to_string ch.type))
      & (λ other args. set_mode-Keeps lua args)
      & (λ other args. read_field-Keeps lua args λ ch. string (mode_to_string ch.chat_mode))
      & (λ other args. set_public-Keeps lua args)
      & (λ other args. read_field-Keeps lua args λ ch. string (c_str ch.description))
      & (λ other args. set_description-Keeps lua args)
      & (λ other args. read_field-Keeps lua args λ ch. string (c_str ch.title))
      & (λ other args. set_title-Keeps lua args)
      & (λ other args. set_owner-Keeps lua args)
      & (λ other args. get_bottle_list-Keeps lua args)
      & (λ other args. read_field-Keeps lua args λ ch. boolean ch.can_destroy)
      & tt

  -- Let every channel's participants and every connection's channel list agree, each participant be
  -- held once, every channel's count be the number of its participants and at most its record, and
  -- no connection be in a channel that is not made yet. Then that is so again after each function
  -- of the table but `join` and `part`, whatever the arguments, whether it returns or raises.
  pub luachannel_funcs-After :
      (name : Bytes) (b : Binding V) (args : List V) (s : Site)
      → lookup name (
          luachannel_funcs lua j real sha1_hash_string event_text long_text depth fuel now later
            event_time)
        ≡ some b
      → not (member name entering_or_leaving) ≡ true
      → Good s
      → After (b args s)
  luachannel_funcs-After name b args s found other good =
      lookup-All _ _ name b entries_lem found other args s good
