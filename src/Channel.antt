-- ===== src/Channel.antt =====
-- src/channel.hpp and src/channel.cpp: one channel. A connection is the number that stands for
-- its pointer, and its record where a field of it is read. Each call of `time(nullptr)` is an
-- argument; `time_t`, `long` and `int` are integers without a bound. The reference count is left
-- to the pointers. `Bans` proves; `Saved` writes the channel to JSON and reads it.
pub mod Bans
pub mod Saved
use fserv.Prelude.{
  ℕ, ◌+◌, ◌≡◌, Bool, true, false, not, ◌&&◌, ◌||◌, Option, none, some, List, [], ◌∷◌, ◌==◌,
  if◌then◌else◌, length,
}
use fserv.Prelude.Bytes.{Bytes, codes, eq_bytes}
use fserv.Prelude.Int.{ℤ, pos, negsuc, ◌+ℤ◌, ltb_ℤ, leb_ℤ, eq_ℤ}
use fserv.Prelude.Maps.{Map, bytes_eq, nat_eq, lookup, insert, erase, has, member, add, remove}
use fserv.Connection.{Connection, Ticks}

pub data ChannelType : Type 0 where
  ct_public ct_private ct_pubprivate : ChannelType

pub data ChannelMessageMode : Type 0 where
  cmm_chat_only cmm_ads_only cmm_both : ChannelMessageMode

pub record ModRecord : Type 0 where
  pub modder : Bytes
  pub time : ℤ

pub record BanRecord : Type 0 where
  pub banner : Bytes
  pub time : ℤ
  pub timeout : ℤ

pub record Channel : Type 0 where
  pub name : Bytes
  pub description : Bytes
  pub type : ChannelType
  pub chat_mode : ChannelMessageMode
  pub participants : List ℕ
  pub moderators : Map Bytes ModRecord
  pub owner : Bytes
  pub bans : Map Bytes BanRecord
  pub participant_count : ℤ
  pub timer_map : Map Bytes Ticks
  pub last_activity : ℤ
  pub can_destroy : Bool
  pub title : Bytes
  pub invites : List Bytes
  pub top_users : ℤ

abbrev pub priv_chan_description_default : Bytes
priv_chan_description_default =
    codes
      "Welcome to your private room! Invite friends with the [b]/invite[/b] command. Change this text with [b]/setdescription[/b]. You can open the room to the public with [b]/openroom[/b] For more, read [url=http://www.f-list.net/doc/chat_faq.php]the help[/url]."

-- `Channel(channame, chantype)`
unfoldable pub new_channel : Bytes → ChannelType → Channel
new_channel channame chantype = record {
  name = channame;
  description = elim chantype [ ct_private ↦ priv_chan_description_default | _ ↦ [] ];
  type = chantype;
  chat_mode = cmm_both;
  participants = [];
  moderators = [];
  owner = [];
  bans = [];
  participant_count = pos 0;
  timer_map = [];
  last_activity = pos 0;
  can_destroy = true;
  title = [];
  invites = [];
  top_users = pos 0;
}

-- `Channel(channame, chantype, creator)`
unfoldable pub new_channel_of : Bytes → ChannelType → Connection → Channel
unfolding new_channel
new_channel_of channame chantype creator =
    let ch = new_channel channame chantype in
    record ch {
      invites = creator.character_name_lower ∷ [];
      owner = creator.character_name;
      description = priv_chan_description_default;
    }

abbrev put_ban : Bytes → BanRecord → Channel → Channel
put_ban dest ban ch = record ch { bans = insert dest ban ch.bans }

unfoldable pub ban : ℤ → Connection → Connection → Channel → Channel
ban now src dest =
    put_ban dest.character_name_lower
      (record { banner = src.character_name; time = now; timeout = pos 0 })

unfoldable pub ban_name : ℤ → Connection → Bytes → Channel → Channel
ban_name now src dest =
    put_ban dest (record { banner = src.character_name; time = now; timeout = pos 0 })

-- `now` and `later` are the two calls of `time`.
unfoldable pub timeout : ℤ → ℤ → Connection → Connection → ℤ → Channel → Channel
timeout now later src dest duration =
    put_ban dest.character_name_lower
      (record { banner = src.character_name; time = now; timeout = later +ℤ duration })

unfoldable pub timeout_name : ℤ → ℤ → Connection → Bytes → ℤ → Channel → Channel
timeout_name now later src dest duration =
    put_ban dest (record { banner = src.character_name; time = now; timeout = later +ℤ duration })

unfoldable pub unban : Bytes → Channel → Channel
unban dest ch = record ch { bans = erase dest ch.bans }

unfoldable pub in_channel : ℕ → Channel → Bool
in_channel con ch = member con ch.participants

-- `b.timeout == 0 || b.timeout >= now`
abbrev pub holds : ℤ → BanRecord → Bool
holds now b = eq_ℤ b.timeout (pos 0) || leb_ℤ now b.timeout

-- A ban that has run out is dropped when it is asked for.
unfoldable pub is_banned_name : ℤ → Bytes → Channel → Channel × Bool
is_banned_name now name ch = elim (lookup name ch.bans) [
  | none ↦ (ch, false)
  | some b ↦ if holds now b then (ch, true) else (record ch { bans = erase name ch.bans }, false)
]

unfoldable pub is_banned : ℤ → Connection → Channel → Channel × Bool
unfolding is_banned_name
is_banned now con = is_banned_name now con.character_name_lower

unfoldable pub get_ban_name : Bytes → Channel → Option BanRecord
get_ban_name name ch = elim (lookup name ch.bans) [
  | none ↦ none
  | some tmp ↦ some (record { banner = tmp.banner; time = tmp.time; timeout = tmp.timeout })
]

unfoldable pub get_ban : Connection → Channel → Option BanRecord
unfolding get_ban_name
get_ban con = get_ban_name con.character_name_lower

-- `ban.timeout != 0 && ban.timeout < now`
abbrev pub ran_out : ℤ → BanRecord → Bool
ran_out now b = not (eq_ℤ b.timeout (pos 0)) && ltb_ℤ b.timeout now

unfoldable pub to_remove : ℤ → Map Bytes BanRecord → List Bytes
to_remove now [] = []
to_remove now ((k, b) ∷ m) = let rest = to_remove now m in if ran_out now b then k ∷ rest else rest

unfoldable pub erase_all : List Bytes → Map Bytes BanRecord → Map Bytes BanRecord
erase_all [] m = m
erase_all (k ∷ ks) m = erase_all ks (erase k m)

unfoldable pub clean_expired_timeouts : ℤ → Channel → Channel
unfolding to_remove erase_all
clean_expired_timeouts now ch = record ch { bans = erase_all (to_remove now ch.bans) ch.bans }

unfoldable pub get_ban_count : ℤ → Channel → Channel × ℕ
unfolding clean_expired_timeouts
get_ban_count now ch = let ch' = clean_expired_timeouts now ch in (ch', length ch'.bans)

unfoldable pub add_mod : ℤ → Connection → Bytes → Channel → Channel
add_mod now src dest ch = record ch {
  moderators = insert dest (record { modder = src.character_name; time = now }) ch.moderators;
}

unfoldable pub add_mod_system : ℤ → Bytes → Channel → Channel
add_mod_system now dest ch = record ch {
  moderators = insert dest (record { modder = codes "[System]"; time = now }) ch.moderators;
}

unfoldable pub rem_mod : Bytes → Channel → Channel
rem_mod dest ch = record ch { moderators = erase dest ch.moderators }

unfoldable pub is_mod_name : Bytes → Channel → Bool
is_mod_name name ch = eq_bytes ch.owner name || has name ch.moderators

unfoldable pub is_mod : Connection → Channel → Bool
unfolding is_mod_name
is_mod con = is_mod_name con.character_name

unfoldable pub is_owner_name : Bytes → Channel → Bool
is_owner_name name ch = eq_bytes ch.owner name

unfoldable pub is_owner : Connection → Channel → Bool
unfolding is_owner_name
is_owner con = is_owner_name con.character_name

unfoldable pub set_owner : Bytes → Channel → Channel
set_owner name ch = record ch { owner = name }

-- Seconds are a million ticks; -1 stands for no entry.
unfoldable pub get_timer_entry : Connection → Channel → Ticks
get_timer_entry con ch = elim (lookup con.character_name_lower ch.timer_map) [
  | none ↦ negsuc 999_999
  | some t ↦ t
]

unfoldable pub set_timer_entry : Connection → Ticks → Channel → Channel
set_timer_entry con newvalue ch = record ch {
  timer_map = insert con.character_name_lower newvalue ch.timer_map;
}

unfoldable pub invite : Connection → Channel → Channel
invite dest ch = record ch { invites = add dest.character_name_lower ch.invites }

unfoldable pub remove_invite : Bytes → Channel → Channel
remove_invite dest ch = record ch { invites = remove dest ch.invites }

unfoldable pub is_invited : Connection → Channel → Bool
is_invited con ch = member con.character_name_lower ch.invites

unfoldable pub set_public : Bool → Channel → Channel
set_public newstatus ch = record ch { type = if newstatus then ct_pubprivate else ct_private }

unfoldable pub update_participant_count : Channel → Channel
update_participant_count ch = record ch { participant_count = pos (length ch.participants) }

abbrev pub set_description : Bytes → Channel → Channel
set_description newdesc ch = record ch { description = newdesc }

abbrev pub set_mode : ChannelMessageMode → Channel → Channel
set_mode newmode ch = record ch { chat_mode = newmode }

abbrev pub set_can_destroy : Bool → Channel → Channel
set_can_destroy destroyable ch = record ch { can_destroy = destroyable }

abbrev pub set_title : Bytes → Channel → Channel
set_title newtitle ch = record ch { title = newtitle }
