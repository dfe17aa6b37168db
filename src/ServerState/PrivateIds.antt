-- ===== src/ServerState/PrivateIds.antt =====
-- `generatePrivateChannelID` of src/server_state.cpp. SHA-1 and what printf writes for a number
-- are parameters; `event_time` is what it writes for `Server::getEventTime()`.
pub mod Fresh
use fserv.Prelude.{
  ℕ, zero, suc, ◌+◌, ◌/◌, ◌%◌, Option, none, some, List, [], ◌∷◌, ◌++◌, ltb, if◌then◌else◌, length,
  take, ◌>>=◌,
}
use fserv.Prelude.Bytes.{Bytes, codes, lowered, c_str}
use fserv.Prelude.Int.{ℤ, pos, ◌+ℤ◌}
use fserv.Connection.{Connection}
use fserv.ServerState.{ServerState, get_channel}
use fserv.Websocket.Handshake.{from_array}

-- The loop goes on until a name is free, so it has fuel here. A read behind the array of 1024
-- bytes is `overread`.
pub data Generated : Type 0 where
  generated : Bytes → ServerState → Generated
  overread unfinished : ServerState → Generated

abbrev hex_digit : ℕ → ℕ
hex_digit d = if ltb d 10 then 48 + d else 87 + d

-- `%02x` of each byte.
abbrev hex : Bytes → Bytes
hex [] = []
hex (b ∷ bytes) = hex_digit (b / 16 % 16) ∷ hex_digit (b % 16) ∷ hex bytes

module _ (sha1_hash_string : Bytes → Bytes) (event_time : Bytes) (long_text : ℤ → Bytes) where
  -- One round, with the seed it has counted up to.
  unfoldable pub private_channel_id : Connection → Bytes → ℤ → Option Bytes
  private_channel_id con title seed = do
    text ←
        from_array 1024
          (c_str title ++ (c_str con.character_name ++ (event_time ++ long_text seed)))
    some (codes "ADH-" ++ hex (take 10 (sha1_hash_string text)))

  unfoldable pub generate_private_channel_id : ℕ → Connection → Bytes → ServerState → Generated
  unfolding private_channel_id
  generate_private_channel_id zero con title s = unfinished s
  generate_private_channel_id (suc fuel) con title s =
      let seed = s.channel_seed +ℤ pos 1 in
      let s' : ServerState = record s { channel_seed = seed } in
      elim (private_channel_id con title seed) [
        | none ↦ overread s'
        | some namehash ↦ elim (get_channel (lowered namehash) s') [
          | none ↦ generated namehash s'
          | some chan ↦ generate_private_channel_id fuel con title s'
        ]
      ]
