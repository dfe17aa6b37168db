-- ===== src/Bindings/Channels/Sound/Answers.antt =====
-- The functions of src/lua_channel.cpp that ask a channel or change its own fields keep channels
-- and connections in agreement.
use fserv.Prelude.{
  ℕ, refl, Bool, true, false, not, ◌&&◌, Bool-cases, inl, inr, Option, none, some, List, [], ◌∷◌,
  if◌then◌else◌,
}
use fserv.Prelude.Bytes.{Bytes}
use fserv.Prelude.Int.{ℤ, ltb_ℤ, ◌-ℤ◌}
use fserv.Prelude.Maps.{lookup, erase, bytes_eq}
use fserv.Connection.{Ticks}
use fserv.Channel
use fserv.Channel.{
  Channel, BanRecord, holds, clean_expired_timeouts, is_banned_name, get_timer_entry,
}
use fserv.Bindings.{
  LuaApi, Item, boolean, item, Pushed, ◌>>=◌, pure, on_channel, to_boolean, type_of,
}
use fserv.Bindings.Channels.Fields
use fserv.Bindings.Channels.Fields.{
  read_field, write_text, mode_of, is_boolean, is_ct_private, is_ct_pubprivate,
}
use fserv.Bindings.Channels.Bans
use fserv.Bindings.Channels.Bans.{ask}
use fserv.Bindings.Channels.Sound.{Settled, with_channel-IsSound}
use fserv.Bindings.Channels.Sound.Calls.{
  Keeps, then_Keeps, either_Keeps, on_channel-Keeps, any_then, string_then, integer_then,
  number_then, lchan_then, lcon_then, by_name-Keeps,
}

found_Settled :
    (now : ℤ) (o : Option BanRecord) (ch ch' : Channel)
    → Settled ch ch'
    → Settled ch
        (elim o as (λ x. Channel × Bool) [
          | none ↦ (ch, false)
          | some b ↦ if holds now b then (ch, true) else (ch', false)
        ]).0
found_Settled now none ch ch' h = (refl, refl, refl)
found_Settled now (some b) ch ch' h = elim (Bool-cases (holds now b)) [
  | inl e ↦ rw e (refl, refl, refl)
  | inr e ↦ rw e h
]

is_banned_name-Settled :
    (now : ℤ) (name : Bytes) (ch : Channel) → Settled ch (is_banned_name now name ch).0
unfolding is_banned_name
is_banned_name-Settled now name ch =
    found_Settled now (lookup name ch.bans) ch (record ch { bans = erase name ch.bans })
      (refl, refl, refl)

module _ {V : Type 0} (lua : LuaApi V) (args : List V) where
  pub read_field-Keeps : (f : Channel → Item) → Keeps (read_field lua f args)
  read_field-Keeps f = any_then lua args 1 _ λ _. lchan_then lua args 1 _ λ c s g. g

  write_text-Keeps :
      (f : Bytes → Channel → Channel)
      → ((t : Bytes) (ch : Channel) → Settled ch (f t ch))
      → Keeps (write_text lua f args)
  write_text-Keeps f settled = any_then lua args 2 _ λ _. lchan_then lua args 1 _ λ c.
      string_then lua args 2 _
        λ t s g. with_channel-IsSound c (f t) s.heap s.next (settled t (s.heap.channels c)) g

  asked_Keeps :
      (c : ℕ) (question : Channel → Channel × Bool)
      → ((ch : Channel) → Settled ch (question ch).0)
      → Keeps (ask lua c question)
  asked_Keeps c question settled s g =
      with_channel-IsSound c (λ ch. (question (s.heap.channels c)).0) s.heap s.next
        (settled (s.heap.channels c)) g

  -- A change of a channel's own fields, and then nothing but the answer.
  write_Keeps :
      (c : ℕ) (f : Channel → Channel) (r : List Pushed)
      → ((ch : Channel) → Settled ch (f ch))
      → Keeps (on_channel c f >>= λ _. pure r)
  write_Keeps c f r settled =
      then_Keeps (on_channel c f) (λ u. pure r) (on_channel-Keeps c f settled) λ u s g. g

  pub set_description-Keeps : Keeps (Fields.set_description lua args)
  unfolding Fields.set_description
  set_description-Keeps = write_text-Keeps Channel.set_description λ t ch. (refl, refl, refl)

  pub set_title-Keeps : Keeps (Fields.set_title lua args)
  unfolding Fields.set_title
  set_title-Keeps = write_text-Keeps Channel.set_title λ t ch. (refl, refl, refl)

  pub set_mode-Keeps : Keeps (Fields.set_mode lua args)
  unfolding Fields.set_mode
  set_mode-Keeps =
      write_text-Keeps (λ mode. Channel.set_mode (mode_of lua mode)) λ t ch. (refl, refl, refl)

  pub set_public-Keeps : Keeps (Fields.set_public lua args)
  unfolding Fields.set_public Channel.set_public
  set_public-Keeps = any_then lua args 2 _ λ _. lchan_then lua args 1 _ λ c s.
      either_Keeps (not (is_boolean (type_of lua args 2))) _ _ (λ s g. g)
        (either_Keeps
          (not (is_ct_private (s.heap.channels c).type)
            && not (is_ct_pubprivate (s.heap.channels c).type))
          _ _ (λ s g. g)
          (write_Keeps c (Channel.set_public (to_boolean lua args 2)) [] λ ch. (refl, refl, refl)))
        s

  pub set_owner-Keeps : Keeps (Fields.set_owner lua args)
  unfolding Fields.set_owner Channel.set_owner
  set_owner-Keeps = any_then lua args 2 _ λ _. lchan_then lua args 1 _ λ c.
      lcon_then lua args 2 _ λ k s g.
        with_channel-IsSound c (Channel.set_owner (s.heap.connections k).character_name) s.heap
          s.next (refl, refl, refl) g

  pub check_update_timer-Keeps : (time : Ticks) → Keeps (Fields.check_update_timer lua time args)
  unfolding Fields.check_update_timer Channel.set_timer_entry
  check_update_timer-Keeps time = any_then lua args 3 _ λ _. lchan_then lua args 1 _ λ c.
      lcon_then lua args 2 _ λ k. number_then lua args 3 _ λ timeout s.
        either_Keeps
          (ltb_ℤ (time -ℤ timeout) (get_timer_entry (s.heap.connections k) (s.heap.channels c))) _ _
          (λ s g. g)
          (write_Keeps c (Channel.set_timer_entry (s.heap.connections k) time)
            (item (boolean false) ∷ []) λ ch. (refl, refl, refl))
          s

  pub ban-Keeps : (now : ℤ) → Keeps (Bans.ban lua now args)
  unfolding Bans.ban Channel.ban Channel.ban_name
  ban-Keeps now = any_then lua args 3 _ λ _. lchan_then lua args 1 _ λ c.
      lcon_then lua args 2 _ λ k s.
        by_name-Keeps lua args 3 _ _ _
          (λ d t g.
            with_channel-IsSound c (Channel.ban now (s.heap.connections k) (t.heap.connections d))
              t.heap t.next (refl, refl, refl) g)
          (λ name t g.
            with_channel-IsSound c (Channel.ban_name now (s.heap.connections k) name) t.heap t.next
              (refl, refl, refl) g)
          s

  pub timeout-Keeps : (now later : ℤ) → Keeps (Bans.timeout lua now later args)
  unfolding Bans.timeout Channel.timeout Channel.timeout_name
  timeout-Keeps now later = any_then lua args 4 _ λ _. lchan_then lua args 1 _ λ c.
      lcon_then lua args 2 _ λ k. integer_then lua args 4 _ λ length s.
        by_name-Keeps lua args 3 _ _ _
          (λ d t g.
            with_channel-IsSound c
              (λ ch.
                Channel.timeout now later (s.heap.connections k) (t.heap.connections d) length ch)
              t.heap t.next (refl, refl, refl) g)
          (λ name t g.
            with_channel-IsSound c
              (λ ch. Channel.timeout_name now later (s.heap.connections k) name length ch) t.heap
              t.next (refl, refl, refl) g)
          s

  pub unban-Keeps : Keeps (Bans.unban lua args)
  unfolding Bans.unban Channel.unban
  unban-Keeps = any_then lua args 2 _ λ _. lchan_then lua args 1 _ λ c.
      string_then lua args 2 _
        λ name s g. with_channel-IsSound c (Channel.unban name) s.heap s.next (refl, refl, refl) g

  pub is_banned-Keeps : (now : ℤ) → Keeps (Bans.is_banned lua now args)
  unfolding Bans.is_banned Channel.is_banned
  is_banned-Keeps now = any_then lua args 2 _ λ _. lchan_then lua args 1 _ λ c.
      by_name-Keeps lua args 2 _ _ _
        (λ k s.
          asked_Keeps c (Channel.is_banned now (s.heap.connections k))
            (is_banned_name-Settled now (s.heap.connections k).character_name_lower) s)
        (λ name. asked_Keeps c (is_banned_name now name) (is_banned_name-Settled now name))

  pub get_ban-Keeps : Keeps (Bans.get_ban lua args)
  unfolding Bans.get_ban
  get_ban-Keeps = any_then lua args 2 _ λ _.
      lchan_then lua args 1 _ λ c s. by_name-Keeps lua args 2 _ _ _ (λ k s g. g) (λ name s g. g) s

  pub get_ban_list-Keeps : (now : ℤ) → Keeps (Bans.get_ban_list lua now args)
  unfolding Bans.get_ban_list clean_expired_timeouts
  get_ban_list-Keeps now = any_then lua args 1 _ λ _. lchan_then lua args 1 _ λ c s g.
      with_channel-IsSound c (clean_expired_timeouts now) s.heap s.next (refl, refl, refl) g

  pub get_ban_count-Keeps : (now : ℤ) → Keeps (Bans.get_ban_count lua now args)
  unfolding Bans.get_ban_count Channel.get_ban_count clean_expired_timeouts
  get_ban_count-Keeps now = any_then lua args 1 _ λ _. lchan_then lua args 1 _ λ c s g.
      with_channel-IsSound c (λ ch. (Channel.get_ban_count now (s.heap.channels c)).0) s.heap s.next
        (refl, refl, refl) g
