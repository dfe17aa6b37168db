-- ===== src/ServerState/Saved.antt =====
-- The registers of src/server_state.cpp that are kept in JSON files: bans and timeouts, operators
-- and channels. The directory is a map from a file's name to its bytes; `writable` says whether a
-- file can be opened for writing.
pub mod Bans
pub mod Ops
pub mod Rooms
use fserv.Prelude.{
  ℕ, suc, Bool, true, false, Option, none, some, List, [], ◌∷◌, ◌++◌, ◌==◌, ◌>>=◌, if◌then◌else◌,
  map,
}
use fserv.Prelude.Bytes.{Bytes, codes, c_str}
use fserv.Prelude.Int.{ℤ}
use fserv.Prelude.Maps.{Map, bytes_eq, int_eq, lookup, insert, add}
use fserv.Json.{Jansson, given, text, c_string_value, string_at, checked_integer_at, array_at}
use fserv.Channel.{Channel, ChannelType, ct_public, ct_private, ct_pubprivate, new_channel}
use fserv.Channel.Saved.{save_channel, load_channel}
use fserv.Rooms.{Heap, with_channel}
use fserv.ServerState.{ServerState, TimeoutRecord, add_channel, remove_channel}
use fserv.ServerState.Lists.{drop_timeouts, add_op}

abbrev pub Files : Type 0
Files = Map Bytes Bytes

unfoldable pub fsave_file : (Bytes → Bool) → Bytes → Bytes → Files → Files × Bool
fsave_file writable name contents files =
    if writable name then (insert name contents files, true) else (files, false)

-- `getline` drops each line's end.
unfoldable pub joined_lines : Bytes → Bytes
joined_lines [] = []
joined_lines (c ∷ s) = let rest = joined_lines s in if c == b'\n' then rest else c ∷ rest

-- A file that is missing gives no byte.
unfoldable pub fload_file : Bytes → Files → Bytes
unfolding joined_lines
fload_file name files = joined_lines (given [] (lookup name files))

abbrev pub add_super_cop : Bytes → ServerState → ServerState
add_super_cop op s = record s { super_cop_list = add op s.super_cop_list }

abbrev pub clear_ops : ServerState → ServerState
clear_ops s = record s { op_list = [] }

abbrev pub clear_super_cops : ServerState → ServerState
clear_super_cops s = record s { super_cop_list = [] }

abbrev pub is_ct_public : ChannelType → Bool
is_ct_public ct_public = true
is_ct_public _ = false

abbrev pub is_ct_pubprivate : ChannelType → Bool
is_ct_pubprivate ct_pubprivate = true
is_ct_pubprivate _ = false

-- The loops over an array's elements.
unfoldable pub load_each {ℓ κ} : {J : Type κ} {A : Type ℓ} → (J → A → A) → List J → A → A
load_each f [] a = a
load_each f (n ∷ nodes) a = load_each f nodes (f n a)

-- The channels, the next free number of a channel, and the registers.
abbrev pub Loading : Type 0
Loading = Heap × ℕ × ServerState

module _ {J : Type 0} (j : Jansson J) where
  abbrev pub load_root : Bytes → Files → Option J
  load_root name files = j.json_loads (c_str (fload_file name files))

  abbrev pub ban_fields : ℤ → Bytes → List (Bytes × J)
  ban_fields id character =
      (codes "id", j.json_integer id) ∷ (codes "character", text j character) ∷ []

  abbrev pub saved_ban : ℤ × Bytes → J
  saved_ban (id, character) = j.json_object (ban_fields id character)

  abbrev pub timeout_fields : ℤ → TimeoutRecord → List (Bytes × J)
  timeout_fields id t =
      (codes "id", j.json_integer id)
      ∷ (codes "end", j.json_integer t.end)
      ∷ (codes "character", text j t.character)
      ∷ []

  abbrev pub saved_timeout : ℤ × TimeoutRecord → J
  saved_timeout (id, t) = j.json_object (timeout_fields id t)

  abbrev pub root_fields : ServerState → List (Bytes × J)
  root_fields s =
      (codes "bans", j.json_array (map saved_ban s.ban_list))
      ∷ (codes "timeouts", j.json_array (map saved_timeout s.timeout_list))
      ∷ []

  abbrev pub saved_root : ServerState → J
  saved_root s = j.json_object (root_fields s)

  unfoldable pub save_bans : (Bytes → Bool) → ℤ → ServerState → Files → ServerState × Files
  save_bans writable now s files =
      let s' = record s { timeout_list = drop_timeouts now s.timeout_list } in
      let contents = j.json_dumps_indented (saved_root s') in
      (s', (fsave_file writable (codes "./bans.json") contents files).0)

  -- The body of the loop; a node that is refused leaves the map.
  unfoldable pub load_ban : J → Map ℤ Bytes → Map ℤ Bytes
  load_ban ban m =
      if j.json_is_object ban
      then given m (do
        id ← checked_integer_at j (codes "id") ban
        character ← string_at j (codes "character") ban
        some (insert id character m))
      else m

  unfoldable pub load_timeout : J → Map ℤ TimeoutRecord → Map ℤ TimeoutRecord
  load_timeout node m =
      if j.json_is_object node
      then given m (do
        character ← string_at j (codes "character") node
        end ← checked_integer_at j (codes "end") node
        id ← checked_integer_at j (codes "id") node
        some (insert id (record { character = character; end = end }) m))
      else m

  -- Without an array of timeouts the bans that were read stay.
  unfoldable pub load_timeouts : Option (List J) → ServerState → ServerState
  unfolding load_timeout load_each
  load_timeouts none s = s
  load_timeouts (some nodes) s = record s {
    timeout_list = load_each load_timeout nodes s.timeout_list;
  }

  unfoldable pub load_both : J → Option (List J) → ServerState → ServerState
  unfolding load_timeouts load_ban load_each
  load_both root none s = s
  load_both root (some nodes) s =
      load_timeouts (array_at j (codes "timeouts") root)
        (record s { ban_list = load_each load_ban nodes s.ban_list })

  unfoldable pub load_ban_root : Option J → ServerState → ServerState
  unfolding load_both
  load_ban_root none s = s
  load_ban_root (some root) s =
      if j.json_is_object root then load_both root (array_at j (codes "bans") root) s else s

  unfoldable pub load_bans : Files → ServerState → ServerState
  unfolding load_ban_root
  load_bans files s = load_ban_root (load_root (codes "./bans.json") files) s

  -- `target` and `clear` are the two functions that the caller passes.
  unfoldable pub load_string : (Bytes → ServerState → ServerState) → J → ServerState → ServerState
  load_string target node s = given s (do op ← c_string_value j node; some (target op s))

  unfoldable pub load_string_list :
      Bytes
      → (Bytes → ServerState → ServerState)
      → (ServerState → ServerState)
      → Files
      → ServerState
      → ServerState
  unfolding load_string load_each
  load_string_list filename target clear files s = given s (do
    root ← load_root filename files
    nodes ← j.json_elements root
    some (load_each (load_string target) nodes (clear s)))

  unfoldable pub load_ops : Files → ServerState → ServerState
  load_ops files s =
      load_string_list (codes "./scops.json") add_super_cop clear_super_cops files
        (load_string_list (codes "./ops.json") add_op clear_ops files s)

  unfoldable pub save_scops : (Bytes → Bool) → ServerState → Files → Files
  save_scops writable s files =
      (fsave_file writable (codes "./scops.json")
        (j.json_dumps_indented (j.json_array (map (text j) s.super_cop_list))) files).0

  unfoldable pub save_ops : (Bytes → Bool) → ServerState → Files → Files
  save_ops writable s files =
      save_scops writable s
        (fsave_file writable (codes "./ops.json")
          (j.json_dumps_indented (j.json_array (map (text j) s.op_list))) files).0

  -- The channels of a type, as they are saved.
  unfoldable pub saved_channels : (ChannelType → Bool) → ℤ → Heap → Map Bytes ℕ → List J
  saved_channels of_type now h [] = []
  saved_channels of_type now h ((name, c) ∷ m) =
      let rest = saved_channels of_type now h m in
      let ch = h.channels c in if of_type ch.type then save_channel j now ch ∷ rest else rest

  abbrev pub channel_fields : ℤ → Heap → ServerState → List (Bytes × J)
  channel_fields now h s =
      (codes "public", j.json_array (saved_channels is_ct_public now h s.channel_map))
      ∷ (codes "private", j.json_array (saved_channels is_ct_pubprivate now h s.channel_map))
      ∷ []

  abbrev pub saved_channel_root : ℤ → Heap → ServerState → J
  saved_channel_root now h s = j.json_object (channel_fields now h s)

  unfoldable pub save_channels : (Bytes → Bool) → ℤ → Heap → ServerState → Files → Files
  unfolding saved_channels
  save_channels writable now h s files =
      (fsave_file writable (codes "./channels.json")
        (j.json_dumps_indented (saved_channel_root now h s)) files).0

  -- `std::string` of a null pointer faults. The new channel gets the next free number.
  unfoldable pub load_node : ℤ → ChannelType → J → Option Loading → Option Loading
  load_node now type chan l = do
    (h, next, s) ← l
    name ← string_at j (codes "name") chan
    some (
      with_channel next (λ _. load_channel j now chan (new_channel name type)) h,
      suc next,
      add_channel name next (remove_channel name s),
    )

  -- What the array under a key holds; without one the function returns.
  unfoldable pub load_array : ℤ → ChannelType → Option (List J) → Loading → Option Loading × Bool
  unfolding load_node load_each
  load_array now type none l = (some l, false)
  load_array now type (some nodes) l = (load_each (load_node now type) nodes (some l), true)

  unfoldable pub load_channel_root : ℤ → Option J → Loading → Option Loading
  unfolding load_array
  load_channel_root now none l = some l
  load_channel_root now (some root) l =
      let (public, found) = load_array now ct_public (array_at j (codes "public") root) l in
      if found
      then (do l' ← public; (load_array now ct_pubprivate (array_at j (codes "private") root) l').0)
      else public

  unfoldable pub load_channels : ℤ → Files → Loading → Option Loading
  unfolding load_channel_root
  load_channels now files l = load_channel_root now (load_root (codes "./channels.json") files) l
