-- ===== src/Bindings/Channels/Bans.antt =====
-- The bindings of src/lua_channel.cpp for a channel's bans.
use fserv.Prelude.{ℕ, Bool, true, false, Option, none, some, List, [], ◌∷◌}
use fserv.Prelude.Bytes.{Bytes, codes, c_str}
use fserv.Prelude.Int.{ℤ, pos}
use fserv.Prelude.Maps.{Map}
use fserv.Channel
use fserv.Channel.{Channel, BanRecord, clean_expired_timeouts}
use fserv.Bindings.{
  LuaApi, Item, nil, boolean, integer, string, Pushed, item, array, table, Call, Binding, ◌>>=◌,
  ◌>>◌, pure, on_channel, channel_of, connection_of, nothing, answer, check_any, check_string,
  check_integer, get_lchan, get_lcon, by_name,
}

abbrev pub banned_names : Map Bytes BanRecord → List Item
banned_names [] = []
banned_names ((name, b) ∷ m) = string (c_str name) ∷ banned_names m

-- The boolean, then the record as a table or nil.
abbrev ban_pushed : Option BanRecord → List Pushed
ban_pushed none = item (boolean false) ∷ item nil ∷ []
ban_pushed (some b) =
    item (boolean true)
    ∷ table (
        (codes "timeout", integer b.timeout)
        ∷ (codes "time", integer b.time)
        ∷ (codes "banner", string (c_str b.banner))
        ∷ [])
    ∷ []

module _ {V : Type 0} (lua : LuaApi V) where
  unfoldable pub ban : ℤ → Binding V
  ban now args = do
    check_any lua args 3
    chan ← get_lchan lua args 1
    k ← get_lcon lua args 2
    src ← connection_of k
    by_name lua args 3
        (λ d. do dest ← connection_of d; on_channel chan (Channel.ban now src dest); nothing)
        (λ dest. do on_channel chan (Channel.ban_name now src dest); nothing)
        (codes "ban must have a string or a ConnectionPtr as the third argument.")

  -- `now` and `later` are the two calls of `time` in the channel's function.
  unfoldable pub timeout : ℤ → ℤ → Binding V
  timeout now later args = do
    check_any lua args 4
    chan ← get_lchan lua args 1
    k ← get_lcon lua args 2
    length ← check_integer lua args 4
    src ← connection_of k
    by_name lua args 3
        (λ d. do
          dest ← connection_of d
          on_channel chan (Channel.timeout now later src dest length)
          nothing)
        (λ dest. do on_channel chan (Channel.timeout_name now later src dest length); nothing)
        (codes "timeout must have a string or a ConnectionPtr as the third argument.")

  unfoldable pub unban : Binding V
  unban args = do
    check_any lua args 2
    chan ← get_lchan lua args 1
    dest ← check_string lua args 2
    on_channel chan (Channel.unban dest)
    nothing

  -- The channel's answer, with what the question leaves of the channel.
  abbrev pub ask : ℕ → (Channel → Channel × Bool) → Call (List Pushed)
  ask chan question = do
    ch ← channel_of chan
    let (left, ret) = question ch
    on_channel chan (λ c. left)
    answer (boolean ret)

  unfoldable pub is_banned : ℤ → Binding V
  is_banned now args = do
    check_any lua args 2
    chan ← get_lchan lua args 1
    by_name lua args 2 (λ k. do con ← connection_of k; ask chan (Channel.is_banned now con))
        (λ name. ask chan (Channel.is_banned_name now name))
        (codes "isBanned expects string or ConnectionPtr as argument 2.")

  unfoldable pub get_ban : Binding V
  get_ban args = do
    check_any lua args 2
    chan ← get_lchan lua args 1
    ch ← channel_of chan
    by_name lua args 2 (λ k. do con ← connection_of k; pure (ban_pushed (Channel.get_ban con ch)))
        (λ name. pure (ban_pushed (Channel.get_ban_name name ch)))
        (codes "getBan expects string or ConnectionPtr as argument 2.")

  unfoldable pub get_ban_list : ℤ → Binding V
  get_ban_list now args = do
    check_any lua args 1
    chan ← get_lchan lua args 1
    on_channel chan (clean_expired_timeouts now)
    ch ← channel_of chan
    pure (array (banned_names ch.bans) ∷ [])

  -- The count drops what has run out.
  unfoldable pub get_ban_count : ℤ → Binding V
  get_ban_count now args = do
    check_any lua args 1
    chan ← get_lchan lua args 1
    ch ← channel_of chan
    let (left, count) = Channel.get_ban_count now ch
    on_channel chan (λ c. left)
    answer (integer (pos count))
