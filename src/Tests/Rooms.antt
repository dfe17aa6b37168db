-- ===== src/Tests/Rooms.antt =====
-- src/channel.cpp at a channel with two people in it.
use fserv.Prelude.{
  ◌≡◌, refl, suc, length, Bool, true, false, ◌&&◌, ◌||◌, not, [], ◌∷◌, arith, ◌==◌, if◌then◌else◌,
}
use fserv.Prelude.Bytes.{codes}
use fserv.Prelude.Int.{pos}
use fserv.Prelude.Maps.{nat_eq, bytes_eq, member, lookup}
use fserv.Connection.{new_connection, from_string, send}
use fserv.Channel.{Channel, ct_public, new_channel, is_banned_name}
use fserv.Channel.Bans.{in_force, is_in_force, is_banned_name-in_force}
use fserv.Rooms.{Heap, join, part, send_to_channel}
use fserv.Rooms.Membership.{IsCounted, IsLinked, join-IsLinked, part-IsLinked, join_twice}
use fserv.Rooms.Delivery.{send_to_channel_lem}

-- Connections 1 and 2 are in channel 5.
abbrev lobby : Channel
lobby = record {
  name = codes "Lobby";
  description = [];
  type = ct_public;
  chat_mode = (new_channel [] ct_public).chat_mode;
  participants = 1 ∷ 2 ∷ [];
  moderators = [];
  owner = [];
  bans = (codes "eve", record { banner = codes "op"; time = pos 10; timeout = pos 50 }) ∷ [];
  participant_count = pos 2;
  timer_map = [];
  last_activity = pos 0;
  can_destroy = true;
  title = [];
  invites = [];
  top_users = pos 4;
}

abbrev bare : Channel
bare = record lobby { participants = []; participant_count = pos 0 }

abbrev pub heap : Heap
heap = record {
  channels = λ c. if c == 5 then lobby else bare;
  connections = λ k.
      if k == 1 || k == 2 then record new_connection { channel_list = 5 ∷ [] } else new_connection;
}

lobby-IsCounted : IsCounted lobby
unfolding member
lobby-IsCounted = record { simple = (refl, (refl, tt)); count_is = refl; top_bounds = ground arith }

bare-IsCounted : IsCounted bare
bare-IsCounted = record { simple = tt; count_is = refl; top_bounds = ground arith }

pub heap-IsLinked : IsLinked heap
unfolding member
heap-IsLinked = record { linked = λ c k. ground arith; counted = λ c. by_test (c == 5) }
  where
    by_test : (b : Bool) → IsCounted (if b then lobby else bare)
    by_test true = lobby-IsCounted
    by_test false = bare-IsCounted

join-IsLinked_example : IsLinked (join (pos 9) 5 3 heap)
unfolding member
join-IsLinked_example = join-IsLinked (pos 9) 5 3 heap refl heap-IsLinked

part-IsLinked_example : IsLinked (part (pos 9) 5 2 heap)
unfolding member
part-IsLinked_example = part-IsLinked (pos 9) 5 2 heap refl heap-IsLinked

join_twice_example :
    (((join (pos 9) 5 2 heap).channels 5).participants ≡ (heap.channels 5).participants)
    × (((join (pos 9) 5 2 heap).channels 5).participant_count
        ≡ pos (suc (length ((join (pos 9) 5 2 heap).channels 5).participants)))
unfolding member
join_twice_example = join_twice (pos 9) 5 2 heap refl (heap-IsLinked.counted 5).count_is

send_to_channel_example : (send_to_channel 5 1 (codes "hello") heap).connections 2 ≡ (
    if member 2 (heap.channels 5).participants && not (2 == 1)
    then (send (from_string (codes "hello")) (heap.connections 2)).0
    else heap.connections 2)
unfolding member
send_to_channel_example = send_to_channel_lem 5 1 (codes "hello") heap 2 (refl, (refl, tt))

is_banned_name_example :
    ((is_banned_name (pos 60) (codes "eve") lobby).1
      ≡ is_in_force (pos 60) (lookup (codes "eve") lobby.bans))
    × (in_force (pos 70) (lookup (codes "bob") (is_banned_name (pos 60) (codes "eve") lobby).0.bans)
        ≡ in_force (pos 70) (lookup (codes "bob") lobby.bans))
is_banned_name_example =
    is_banned_name-in_force (pos 60) (pos 70) lobby (codes "eve") (codes "bob") (ground arith)
