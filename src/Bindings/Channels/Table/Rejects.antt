-- ===== src/Bindings/Channels/Table/Rejects.antt =====
-- What the functions of the module `c` do when they are not given a channel.
use fserv.Prelude.{
  ℕ, ◌≡◌, refl, sym, Bool, true, false, not, ◌&&◌, Bool-cases, inl, inr, some, List, [], ◌∷◌, arith,
  All,
}
use fserv.Prelude.Bytes.{Bytes, codes, eq_bytes}
use fserv.Prelude.Int.{ℤ}
use fserv.Prelude.Maps.{member, lookup, bytes_eq}
use fserv.Json.{Jansson}
use fserv.Connection.{Ticks}
use fserv.Bindings.{
  LuaApi, Binding, Pointee, channel_pointer, connection_pointer, neither, Pushed, Site, Call, ◌>>=◌,
  is_light, type_of, pointee, as_channel, check_any, get_lchan,
}
use fserv.Bindings.Arguments.{Raises, ask_then, fail_first, check_any-Asks}
use fserv.Bindings.Channels.Fields
use fserv.Bindings.Channels.Bans
use fserv.Bindings.Channels.Members
use fserv.Bindings.Channels.Said
use fserv.Bindings.Channels.Table.{luachannel_funcs, lookup-All, exempt, ◌&◌}

-- The functions that do not begin with a channel.
abbrev pub without_channel : List Bytes
without_channel =
    codes "sendCHA"
    ∷ codes "sendORS"
    ∷ codes "getChannel"
    ∷ codes "createChannel"
    ∷ codes "createPrivateChannel"
    ∷ codes "createSpecialPrivateChannel"
    ∷ codes "destroyChannel"
    ∷ []

abbrev pub is_channel : Pointee → Bool
is_channel (channel_pointer c) = true
is_channel _ = false

module _ {V : Type 0} (lua : LuaApi V) where
  -- The first argument is no light userdata that points to a channel.
  abbrev pub NoChannel : List V → Type 0
  NoChannel args = (is_light (type_of lua args 1) && is_channel (pointee lua args 1)) ≡ false

  abbrev pub Rejects : Binding V → Type 0
  Rejects b = (args : List V) (s : Site) → NoChannel args → Raises (b args) s

  as_channel-Raises :
      (args : List V) (s : Site) (p : Pointee)
      → is_channel p ≡ false
      → Raises (as_channel lua args 1 p) s
  as_channel-Raises args s (channel_pointer c) h = exempt (sym h)
  as_channel-Raises args s (connection_pointer k) h = (_, refl)
  as_channel-Raises args s neither h = (_, refl)

  get_lchan-Raises : (args : List V) (s : Site) → NoChannel args → Raises (get_lchan lua args 1) s
  unfolding get_lchan
  get_lchan-Raises args s none_there = elim (Bool-cases (is_light (type_of lua args 1))) [
    | inl light ↦
        rw light (as_channel-Raises args s (pointee lua args 1) (ground (arith, light, none_there)))
    | inr dark ↦ rw dark (_, refl)
  ]

  rejects :
      (n : ℕ) (k : List V → ℕ → Call (List Pushed))
      → Rejects (λ args. check_any lua args n >>= λ _. get_lchan lua args 1 >>= k args)
  rejects n k args s none_there =
      ask_then (check_any lua args n) _ s (check_any-Asks lua args n s)
        λ _. fail_first (get_lchan lua args 1) _ s (get_lchan-Raises args s none_there)

module _ {V J : Type 0} (lua : LuaApi V) (j : Jansson J) (real : V → J)
    (sha1_hash_string : Bytes → Bytes) (event_text : Bytes) (long_text : ℤ → Bytes) (depth fuel : ℕ)
    (now later : ℤ) (event_time : Ticks) where
  entries_lem :
      All
        (λ entry. not (member entry.0 without_channel) ≡ true → Rejects lua entry.1)
        (luachannel_funcs lua j real sha1_hash_string event_text long_text depth fuel now later
          event_time)
  unfolding luachannel_funcs member eq_bytes Fields.get_name Fields.get_user_count
      Fields.get_top_user_count Said.send_to_all Said.send_to_all_raw Said.send_to_channel
      Said.send_to_channel_raw Said.send_ich Members.join_channel Members.part_channel Bans.ban
      Bans.timeout Bans.unban Bans.is_banned Bans.get_ban Bans.get_ban_list Bans.get_ban_count
      Members.invite Members.remove_invite Members.is_invited Members.in_channel Members.add_mod
      Members.remove_mod Members.is_mod Members.is_owner Members.get_mod_list
      Fields.check_update_timer Fields.get_type Fields.set_mode Fields.get_mode Fields.set_public
      Fields.get_description Fields.set_description Fields.get_title Fields.set_title
      Fields.set_owner Members.get_bottle_list Fields.can_destroy
  entries_lem =
      (λ taken. exempt taken)
      & (λ taken. exempt taken)
      & (λ taken. exempt taken)
      & (λ taken. rejects lua 1 _)
      & (λ taken. rejects lua 1 _)
      & (λ taken. rejects lua 1 _)
      & (λ taken. exempt taken)
      & (λ taken. exempt taken)
      & (λ taken. exempt taken)
      & (λ taken. exempt taken)
      & (λ taken. rejects lua 3 _)
      & (λ taken. rejects lua 2 _)
      & (λ taken. rejects lua 4 _)
      & (λ taken. rejects lua 3 _)
      & (λ taken. rejects lua 2 _)
      & (λ taken. rejects lua 2 _)
      & (λ taken. rejects lua 2 _)
      & (λ taken. rejects lua 3 _)
      & (λ taken. rejects lua 4 _)
      & (λ taken. rejects lua 2 _)
      & (λ taken. rejects lua 2 _)
      & (λ taken. rejects lua 2 _)
      & (λ taken. rejects lua 1 _)
      & (λ taken. rejects lua 1 _)
      & (λ taken. rejects lua 2 _)
      & (λ taken. rejects lua 2 _)
      & (λ taken. rejects lua 2 _)
      & (λ taken. rejects lua 2 _)
      & (λ taken. rejects lua 3 _)
      & (λ taken. rejects lua 2 _)
      & (λ taken. rejects lua 2 _)
      & (λ taken. rejects lua 2 _)
      & (λ taken. rejects lua 1 _)
      & (λ taken. rejects lua 3 _)
      & (λ taken. rejects lua 1 _)
      & (λ taken. rejects lua 2 _)
      & (λ taken. rejects lua 1 _)
      & (λ taken. rejects lua 2 _)
      & (λ taken. rejects lua 1 _)
      & (λ taken. rejects lua 2 _)
      & (λ taken. rejects lua 1 _)
      & (λ taken. rejects lua 2 _)
      & (λ taken. rejects lua 2 _)
      & (λ taken. rejects lua 2 _)
      & (λ taken. rejects lua 1 _)
      & tt

  -- Each function of the table that begins with a channel raises an error when its first argument
  -- points to none, and leaves the site as it was.
  pub luachannel_funcs-Rejects :
      (name : Bytes) (b : Binding V) (args : List V) (s : Site)
      → lookup name (
          luachannel_funcs lua j real sha1_hash_string event_text long_text depth fuel now later
            event_time)
        ≡ some b
      → not (member name without_channel) ≡ true
      → NoChannel lua args
      → Raises (b args) s
  luachannel_funcs-Rejects name b args s found other none_there =
      lookup-All _ _ name b entries_lem found other args s none_there
