-- ===== src/ServerState.antt =====
-- src/server_state.hpp and src/server_state.cpp: the registers that every part of the server
-- shares. A connection or a channel is the number that stands for its pointer in the heap of
-- `Rooms`; each call of `time` is an argument; `long`, `int` and `time_t` are integers without a
-- bound, and an address stands for its cast to `int`, which keeps every bit.
pub mod Lists
pub mod Channels
pub mod Users
pub mod Moderation
pub mod Cleanup
pub mod Saved
pub mod PrivateIds
use fserv.Prelude.{ℕ, Option, none, some, List, [], ◌∷◌, ◌++◌, if◌then◌else◌}
use fserv.Prelude.Bytes.{Bytes, lowered}
use fserv.Prelude.Int.{ℤ, pos, negsuc, ◌+ℤ◌, ltb_ℤ, leb_ℤ}
use fserv.Prelude.Maps.{Map, bytes_eq, nat_eq, lookup, insert, erase, has, remove}
use fserv.Rooms.{Heap}

pub record TimeoutRecord : Type 0 where
  pub character : Bytes
  pub end : ℤ

pub record AltWatchRecord : Type 0 where
  pub account_id : ℤ
  pub character : Bytes
  pub end : ℤ

pub record StaffCallRecord : Type 0 where
  pub action : Bytes
  pub character : Bytes
  pub report : Bytes
  pub timestamp : ℤ
  pub callid : Bytes
  pub logid : ℤ
  pub tab : Bytes

pub record ServerState : Type 0 where
  pub user_count : ℤ
  pub max_user_count : ℤ
  pub channel_seed : ℤ
  pub connection_map : Map Bytes ℕ
  pub connection_count_map : Map ℕ ℤ
  pub channel_map : Map Bytes ℕ
  pub unidentified_list : List ℕ
  pub op_list : List Bytes
  pub ban_list : Map ℤ Bytes
  pub timeout_list : Map ℤ TimeoutRecord
  pub alt_watch_list : Map ℤ AltWatchRecord
  pub staff_call_list : Map Bytes StaffCallRecord
  pub channel_op_list : List Bytes
  pub staff_call_targets : List ℕ
  pub super_cop_list : List Bytes

-- The static members' first values.
abbrev pub new_server_state : ServerState
new_server_state = record {
  user_count = pos 0;
  max_user_count = pos 0;
  channel_seed = pos 0;
  connection_map = [];
  connection_count_map = [];
  channel_map = [];
  unidentified_list = [];
  op_list = [];
  ban_list = [];
  timeout_list = [];
  alt_watch_list = [];
  staff_call_list = [];
  channel_op_list = [];
  staff_call_targets = [];
  super_cop_list = [];
}

unfoldable pub add_unidentified : ℕ → ServerState → ServerState
add_unidentified con s = record s { unidentified_list = s.unidentified_list ++ con ∷ [] }

unfoldable pub removed_unidentified : ℕ → ServerState → ServerState
removed_unidentified con s = record s { unidentified_list = remove con s.unidentified_list }

-- `connectionCountMap[addr]`, 0 for a key that is not there.
unfoldable pub count_at : ℕ → Map ℕ ℤ → ℤ
count_at addr m = elim (lookup addr m) [ none ↦ pos 0 | some n ↦ n ]

unfoldable pub add_connection : Heap → Bytes → ℕ → ServerState → ServerState
unfolding count_at
add_connection h name con s =
    let addr = (h.connections con).client_address in
    let count = s.user_count +ℤ pos 1 in
    record s {
      connection_count_map =
          insert addr (count_at addr s.connection_count_map +ℤ pos 1) s.connection_count_map;
      connection_map = insert name con s.connection_map;
      user_count = count;
      max_user_count = if ltb_ℤ s.max_user_count count then count else s.max_user_count;
    }

-- `connectionCountMap[addr] -= 1`, and the key goes when none is left.
unfoldable pub count_down : ℕ → Map ℕ ℤ → Map ℕ ℤ
unfolding count_at
count_down addr m =
    let n = count_at addr m +ℤ negsuc 0 in if leb_ℤ n (pos 0) then erase addr m else insert addr n m

-- The branch for a name that is in the map, under `con`.
unfoldable pub forget_connection : Heap → Bytes → Option ℕ → ServerState → ServerState
unfolding count_down
forget_connection h name none s = s
forget_connection h name (some con) s = record s {
  connection_count_map = count_down (h.connections con).client_address s.connection_count_map;
  staff_call_targets = remove con s.staff_call_targets;
  connection_map = erase name s.connection_map;
  user_count = s.user_count +ℤ negsuc 0;
}

unfoldable pub remove_connection : Heap → Bytes → ServerState → ServerState
remove_connection h name s = forget_connection h name (lookup name s.connection_map) s

unfoldable pub get_connection : Bytes → ServerState → Option ℕ
get_connection name s = lookup name s.connection_map

-- The `[]` of the map leaves a 0 under an address that was not there.
unfoldable pub get_connection_ip_count : Heap → ℕ → ServerState → ServerState × ℤ
unfolding count_at
get_connection_ip_count h con s =
    let addr = (h.connections con).client_address in
    let n = count_at addr s.connection_count_map in
    (record s { connection_count_map = insert addr n s.connection_count_map }, n)

unfoldable pub add_channel : Bytes → ℕ → ServerState → ServerState
add_channel name channel s = record s { channel_map = insert (lowered name) channel s.channel_map }

unfoldable pub remove_channel : Bytes → ServerState → ServerState
remove_channel name s = record s {
  channel_map = if has name s.channel_map then erase name s.channel_map else s.channel_map;
}

unfoldable pub get_channel : Bytes → ServerState → Option ℕ
get_channel name s = lookup name s.channel_map

abbrev pub cleanup_channels : ServerState → ServerState
cleanup_channels s = s
