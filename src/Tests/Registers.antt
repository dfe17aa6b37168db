-- ===== src/Tests/Registers.antt =====
-- src/server_state.cpp at a small register.
use fserv.Prelude.{◌≡◌, refl, [], ◌∷◌, arith, ◌==◌, if◌then◌else◌, not, ◌&&◌}
use fserv.Prelude.Bytes.{codes, eq_bytes}
use fserv.Prelude.Int.{ℤ, pos}
use fserv.Prelude.Maps.{Map, nat_eq, bytes_eq, int_eq, lookup, has}
use fserv.Connection.{new_connection}
use fserv.Channel.{ct_public, ct_pubprivate, new_channel}
use fserv.Rooms.{Heap}
use fserv.ServerState.{
  ServerState, TimeoutRecord, new_server_state, add_connection, remove_connection, count_at,
  get_channel,
}
use fserv.ServerState.Channels.{rebuild_channel_op_list, is_channel_op, remove_unused_channels}
use fserv.ServerState.Users.{IsAccounted, add_connection-IsAccounted, remove_connection-IsAccounted}
use fserv.ServerState.Cleanup.{
  used, remove_unused_channels-get_channel, moderates, is_channel_op-rebuild_channel_op_list,
}

abbrev two_channels : Heap
two_channels = record {
  channels = λ c.
      if c == 5
      then record (new_channel (codes "Lobby") ct_public) {
        moderators = (codes "ann", record { modder = []; time = pos 1 }) ∷ [];
      }
      else new_channel (codes "Den") ct_pubprivate;
  connections = λ k. record new_connection { client_address = 77 };
}

new_server_state-IsAccounted : IsAccounted two_channels new_server_state
unfolding count_at lookup
new_server_state-IsAccounted = record {
  distinct = tt;
  users = refl;
  most = ground arith;
  per_address = λ a. refl;
}

one_user-IsAccounted :
    IsAccounted two_channels (add_connection two_channels (codes "ann") 1 new_server_state)
unfolding has
one_user-IsAccounted =
    add_connection-IsAccounted two_channels (codes "ann") 1 new_server_state refl
      new_server_state-IsAccounted

remove_connection-IsAccounted_example : IsAccounted two_channels (
    remove_connection two_channels
      (codes "ann")
      (add_connection two_channels (codes "ann") 1 new_server_state))
remove_connection-IsAccounted_example =
    remove_connection-IsAccounted two_channels (codes "ann")
      (add_connection two_channels (codes "ann") 1 new_server_state) one_user-IsAccounted

abbrev filled : ServerState
filled = record new_server_state {
  ban_list = (pos 3, codes "eve") ∷ (pos 4, codes "mal") ∷ [];
  alt_watch_list =
      (pos 3, record { account_id = pos 3; character = codes "eve"; end = pos 90 }) ∷ [];
  channel_map = (codes "lobby", 5) ∷ (codes "adh-1", 6) ∷ [];
  op_list = codes "Ann" ∷ [];
}

abbrev timeouts : Map ℤ TimeoutRecord
timeouts =
    (pos 3, record { character = codes "eve"; end = pos 40 })
    ∷ (pos 4, record { character = codes "mal"; end = pos 60 })
    ∷ []

remove_unused_channels_example :
    get_channel (codes "adh-1") (remove_unused_channels (pos 100000) two_channels filled).1
    ≡ used (pos 100000) two_channels.channels (get_channel (codes "adh-1") filled)
unfolding has eq_bytes
remove_unused_channels_example =
    remove_unused_channels-get_channel (pos 100000) two_channels filled (codes "adh-1")
      (refl, (refl, tt))

is_channel_op_example :
    is_channel_op (codes "ann") (rebuild_channel_op_list two_channels filled) ≡ (
      not (eq_bytes (codes "ann") [])
      && moderates two_channels.channels (codes "ann") filled.channel_map)
is_channel_op_example = is_channel_op-rebuild_channel_op_list two_channels filled (codes "ann")
