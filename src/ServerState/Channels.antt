-- ===== src/ServerState/Channels.antt =====
-- The operations of src/server_state.cpp over every channel: the set of channel operators is
-- built again, and channels that nobody uses go.
use fserv.Prelude.{ℕ, Bool, true, false, ◌&&◌, List, [], ◌∷◌, if◌then◌else◌}
use fserv.Prelude.Bytes.{Bytes, eq_bytes}
use fserv.Prelude.Int.{ℤ, pos, ◌-ℤ◌, ltb_ℤ, leb_ℤ}
use fserv.Prelude.Maps.{Map, bytes_eq, member, add}
use fserv.Channel.{Channel, ct_public, ct_pubprivate, ModRecord, update_participant_count}
use fserv.Rooms.{Heap, with_channel}
use fserv.ServerState.{ServerState, remove_channel}

-- The names of a channel's moderators, the empty one left out, go into the set.
unfoldable pub insert_mods : Map Bytes ModRecord → List Bytes → List Bytes
insert_mods [] ops = ops
insert_mods ((name, r) ∷ mods) ops =
    insert_mods mods (if eq_bytes name [] then ops else add name ops)

abbrev pub is_public : Channel → Bool
is_public ch = elim ch.type [ ct_public ↦ true | _ ↦ false ]

unfoldable pub channel_ops : (ℕ → Channel) → Map Bytes ℕ → List Bytes → List Bytes
unfolding insert_mods
channel_ops chans [] ops = ops
channel_ops chans ((name, c) ∷ m) ops =
    channel_ops chans m (if is_public (chans c) then insert_mods (chans c).moderators ops else ops)

unfoldable pub rebuild_channel_op_list : Heap → ServerState → ServerState
unfolding channel_ops
rebuild_channel_op_list h s = record s { channel_op_list = channel_ops h.channels s.channel_map [] }

unfoldable pub is_channel_op : Bytes → ServerState → Bool
is_channel_op name s = member name s.channel_op_list

abbrev pub day : ℤ
day = pos 86400

-- The first loop of `removeUnusedChannels`: the counts are set again.
unfoldable pub recount : Map Bytes ℕ → Heap → Heap
recount [] h = h
recount ((name, c) ∷ m) h = recount m (with_channel c update_participant_count h)

abbrev pub is_unused : ℤ → Channel → Bool
is_unused limit ch = elim ch.type [
  | ct_pubprivate ↦ leb_ℤ ch.participant_count (pos 0) && ltb_ℤ ch.last_activity limit
  | _ ↦ false
]

-- Its test, on the counts that the loop has set.
unfoldable pub unused_channels : ℤ → (ℕ → Channel) → Map Bytes ℕ → List Bytes
unused_channels limit chans [] = []
unused_channels limit chans ((name, c) ∷ m) =
    let rest = unused_channels limit chans m in
    if is_unused limit (update_participant_count (chans c)) then name ∷ rest else rest

unfoldable pub remove_channels : List Bytes → ServerState → ServerState
unfolding remove_channel
remove_channels [] s = s
remove_channels (name ∷ names) s = remove_channels names (remove_channel name s)

unfoldable pub remove_unused_channels : ℤ → Heap → ServerState → Heap × ServerState
unfolding recount unused_channels remove_channels
remove_unused_channels now h s = (
  recount s.channel_map h,
  remove_channels (unused_channels (now -ℤ day) h.channels s.channel_map) s,
)
