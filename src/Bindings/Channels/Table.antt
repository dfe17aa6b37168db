-- ===== src/Bindings/Channels/Table.antt =====
-- The table of src/lua_channel.cpp that registers its functions under the names of the module `c`.
pub mod Rejects
pub mod Agree
use fserv.Prelude.{ℕ, ◌≡◌, true, false, Bool-cases, inl, inr, some, List, [], ◌∷◌, arith, All}
use fserv.Prelude.Maps.{Map, bytes_eq, lookup, same, same_iff}
use fserv.Prelude.Bytes.{Bytes, codes}
use fserv.Prelude.Int.{ℤ}
use fserv.Json.{Jansson}
use fserv.Connection.{Ticks}
use fserv.Bindings.{LuaApi, Binding}
use fserv.Bindings.Channels.Fields
use fserv.Bindings.Channels.Bans
use fserv.Bindings.Channels.Members
use fserv.Bindings.Channels.Rooms
use fserv.Bindings.Channels.Said

-- What is excluded by its name.
pub exempt : {P : Type 0} → false ≡ true → P
exempt e = absurd (ground (arith, e))

-- A property of each entry of a list.
infixr 3 ◌&◌
abbrev pub ◌&◌ : {A B : Type 0} → A → B → A × B
a & b = (a, b)

pub lookup-All :
    {A : Type 0} (P : Bytes × A → Type 0) (m : Map Bytes A) (name : Bytes) (a : A)
    → All P m
    → lookup name m ≡ some a
    → P (name, a)
unfolding lookup
lookup-All P [] name a h e = absurd (ground (arith, e))
lookup-All P ((key, b) ∷ m) name a (h, rest) e = elim (Bool-cases (same key name)) [
  | inl hit ↦
      let key_is : key ≡ name = (same_iff key name).0 hit in
      let entry_is : b ≡ a = ground (arith, hit, e) in rw (← key_is, ← entry_is) h
  | inr miss ↦ lookup-All P m name a rest (ground (arith, miss, e))
]

-- `now` and `later` are what each function gets from its calls of `time`, and `event_time` is
-- `Server::getEventTime()`, whose text is `event_text`.
module _ {V J : Type 0} (lua : LuaApi V) (j : Jansson J) (real : V → J)
    (sha1_hash_string : Bytes → Bytes) (event_text : Bytes) (long_text : ℤ → Bytes) (depth fuel : ℕ)
    (now later : ℤ) (event_time : Ticks) where
  unfoldable pub luachannel_funcs : List (Bytes × Binding V)
  luachannel_funcs =
      (codes "sendCHA", Said.send_cha j lua now later)
      ∷ (codes "sendORS", Said.send_ors j lua now later)
      ∷ (codes "getChannel", Rooms.get_channel lua)
      ∷ (codes "getName", Fields.get_name lua)
      ∷ (codes "getUserCount", Fields.get_user_count lua)
      ∷ (codes "getTopUserCount", Fields.get_top_user_count lua)
      ∷ (codes "createChannel", Rooms.create_channel lua)
      ∷ (
        codes "createPrivateChannel",
        Rooms.create_private_channel sha1_hash_string event_text long_text lua fuel,
      )
      ∷ (codes "createSpecialPrivateChannel", Rooms.create_special_private_channel lua)
      ∷ (codes "destroyChannel", Rooms.destroy_channel j lua now)
      ∷ (codes "sendAll", Said.send_to_all lua j real depth)
      ∷ (codes "sendAllRaw", Said.send_to_all_raw lua)
      ∷ (codes "sendChannel", Said.send_to_channel lua j real depth)
      ∷ (codes "sendChannelRaw", Said.send_to_channel_raw lua)
      ∷ (codes "sendICH", Said.send_ich j lua)
      ∷ (codes "join", Members.join_channel lua now)
      ∷ (codes "part", Members.part_channel lua now)
      ∷ (codes "ban", Bans.ban lua now)
      ∷ (codes "timeout", Bans.timeout lua now later)
      ∷ (codes "unban", Bans.unban lua)
      ∷ (codes "isBanned", Bans.is_banned lua now)
      ∷ (codes "getBan", Bans.get_ban lua)
      ∷ (codes "getBanList", Bans.get_ban_list lua now)
      ∷ (codes "getBanCount", Bans.get_ban_count lua now)
      ∷ (codes "invite", Members.invite lua)
      ∷ (codes "removeInvite", Members.remove_invite lua)
      ∷ (codes "isInvited", Members.is_invited lua)
      ∷ (codes "inChannel", Members.in_channel lua)
      ∷ (codes "addMod", Members.add_mod lua now)
      ∷ (codes "removeMod", Members.remove_mod lua)
      ∷ (codes "isMod", Members.is_mod lua)
      ∷ (codes "isOwner", Members.is_owner lua)
      ∷ (codes "getModList", Members.get_mod_list lua)
      ∷ (codes "checkUpdateTimer", Fields.check_update_timer lua event_time)
      ∷ (codes "getType", Fields.get_type lua)
      ∷ (codes "setMode", Fields.set_mode lua)
      ∷ (codes "getMode", Fields.get_mode lua)
      ∷ (codes "setPublic", Fields.set_public lua)
      ∷ (codes "getDescription", Fields.get_description lua)
      ∷ (codes "setDescription", Fields.set_description lua)
      ∷ (codes "getTitle", Fields.get_title lua)
      ∷ (codes "setTitle", Fields.set_title lua)
      ∷ (codes "setOwner", Fields.set_owner lua)
      ∷ (codes "getBottleList", Members.get_bottle_list lua)
      ∷ (codes "canDestroy", Fields.can_destroy lua)
      ∷ []
