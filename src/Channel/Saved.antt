-- ===== src/Channel/Saved.antt =====
-- `saveChannel` and `loadChannel` of src/channel.cpp, over the part of the jansson library that
-- they call.
pub mod Restored
pub mod Banned
pub mod Renewed
use fserv.Prelude.{
  ℕ, Option, none, some, List, [], ◌∷◌, ◌>>=◌, if◌then◌else◌, ◌&&◌, not, length, take,
}
use fserv.Prelude.Bytes.{Bytes, codes, eq_bytes, lowered, c_str}
use fserv.Prelude.Int.{ℤ, pos}
use fserv.Prelude.Maps.{Map, bytes_eq, insert}
use fserv.Json.{Jansson, given, text, string_at, integer_at, elements_at}
use fserv.Channel.{
  Channel, ChannelType, ct_public, ct_private, ct_pubprivate, ChannelMessageMode, cmm_chat_only,
  cmm_ads_only, cmm_both, ModRecord, BanRecord, ran_out,
}

unfoldable pub mode_to_string : ChannelMessageMode → Bytes
mode_to_string cmm_both = codes "both"
mode_to_string cmm_ads_only = codes "ads"
mode_to_string cmm_chat_only = codes "chat"

unfoldable pub string_to_mode : Bytes → ChannelMessageMode
string_to_mode modestring =
    if eq_bytes modestring (codes "both")
    then cmm_both
    else if eq_bytes modestring (codes "ads")
    then cmm_ads_only
    else if eq_bytes modestring (codes "chat")
    then cmm_chat_only
    else cmm_both

unfoldable pub type_to_string : ChannelType → Bytes
type_to_string ct_private = codes "private"
type_to_string ct_pubprivate = codes "pubprivate"
type_to_string ct_public = codes "public"

unfoldable pub string_to_type : Bytes → ChannelType
string_to_type typestring =
    if eq_bytes typestring (codes "public")
    then ct_public
    else if eq_bytes typestring (codes "pubprivate")
    then ct_pubprivate
    else ct_private

abbrev pub max_loaded_bans : ℕ
max_loaded_bans = 300

module _ {J : Type 0} (j : Jansson J) where
  abbrev pub saved_ban : Bytes → BanRecord → J
  saved_ban name br = j.json_object (
      (codes "name", text j name)
      ∷ (codes "banner", text j br.banner)
      ∷ (codes "timeout", j.json_integer br.timeout)
      ∷ (codes "time", j.json_integer br.time)
      ∷ [])

  unfoldable pub saved_bans : ℤ → Map Bytes BanRecord → List J
  saved_bans now [] = []
  saved_bans now ((name, br) ∷ m) =
      let rest = saved_bans now m in if ran_out now br then rest else saved_ban name br ∷ rest

  unfoldable pub saved_mods : Map Bytes ModRecord → List J
  saved_mods [] = []
  saved_mods ((name, mr) ∷ m) =
      j.json_object (
        (codes "name", text j name)
        ∷ (codes "modder", text j mr.modder)
        ∷ (codes "time", j.json_integer mr.time)
        ∷ [])
      ∷ saved_mods m

  abbrev pub saved_fields : ℤ → Channel → List (Bytes × J)
  saved_fields now ch =
      (codes "name", text j ch.name)
      ∷ (codes "description", text j ch.description)
      ∷ (codes "mode", text j (mode_to_string ch.chat_mode))
      ∷ (codes "owner", text j ch.owner)
      ∷ (codes "users", j.json_integer (pos (length ch.participants)))
      ∷ (codes "title", text j ch.title)
      ∷ (codes "top", j.json_integer ch.top_users)
      ∷ (codes "type", text j (type_to_string ch.type))
      ∷ (codes "banlist", j.json_array (saved_bans now ch.bans))
      ∷ (codes "modlist", j.json_array (saved_mods ch.moderators))
      ∷ []

  unfoldable pub save_channel : ℤ → Channel → J
  unfolding saved_bans saved_mods
  save_channel now ch = j.json_object (saved_fields now ch)

  -- A banner that is no string leaves the record's own, which is empty.
  unfoldable pub load_ban : J → Map Bytes BanRecord → Map Bytes BanRecord
  load_ban ban bans = given bans (do
    banner ← j.json_object_get (codes "banner") ban
    time ← integer_at j (codes "time") ban
    name ← string_at j (codes "name") ban
    some (
        insert (lowered name)
          (record {
            banner = given [] (string_at j (codes "banner") ban);
            time = time;
            timeout = given (pos 0) (integer_at j (codes "timeout") ban);
          })
          bans))

  unfoldable pub load_bans : List J → Map Bytes BanRecord → Map Bytes BanRecord
  unfolding load_ban
  load_bans [] bans = bans
  load_bans (ban ∷ nodes) bans = load_bans nodes (load_ban ban bans)

  unfoldable pub load_mod : J → Map Bytes ModRecord → Map Bytes ModRecord
  load_mod node mods = given mods (do
    modder ← j.json_object_get (codes "modder") node
    time ← integer_at j (codes "time") node
    name ← string_at j (codes "name") node
    some (
        insert name (record { modder = given [] (string_at j (codes "modder") node); time = time })
          mods))

  unfoldable pub load_mods : List J → Map Bytes ModRecord → Map Bytes ModRecord
  unfolding load_mod
  load_mods [] mods = mods
  load_mods (node ∷ nodes) mods = load_mods nodes (load_mod node mods)

  unfoldable pub load_channel : ℤ → J → Channel → Channel
  load_channel now channode ch = record ch {
    last_activity = now;
    description = given ch.description (string_at j (codes "description") channode);
    chat_mode =
        given ch.chat_mode (string_at j (codes "mode") channode >>= λ s. some (string_to_mode s));
    owner = given ch.owner (string_at j (codes "owner") channode);
    bans = load_bans (take max_loaded_bans (elements_at j (codes "banlist") channode)) ch.bans;
    moderators = load_mods (elements_at j (codes "modlist") channode) ch.moderators;
    title = given ch.title (string_at j (codes "title") channode);
    top_users = given ch.top_users (integer_at j (codes "top") channode);
    type = given ch.type (string_at j (codes "type") channode >>= λ s. some (string_to_type s));
  }
