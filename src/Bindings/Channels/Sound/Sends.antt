-- ===== src/Bindings/Channels/Sound/Sends.antt =====
-- The functions of src/lua_channel.cpp that send JSON, destroy a channel or make one with a new name
-- keep channels and connections in agreement.
use fserv.Prelude.{ℕ, refl, not, Option, none, some, List, arith}
use fserv.Prelude.Bytes.{Bytes}
use fserv.Prelude.Int.{ℤ}
use fserv.Prelude.Maps.{nat_eq}
use fserv.Json.{Jansson}
use fserv.Channel.{new_channel, new_channel_of, ct_private, set_title}
use fserv.ServerState
use fserv.ServerState.{ServerState, get_connection}
use fserv.ServerState.PrivateIds.{Generated, generated, overread, unfinished}
use fserv.Bindings.{LuaApi, Site, type_of}
use fserv.Bindings.Convert.{is_table, lua_to_json}
use fserv.Bindings.Channels.Rooms.{create_private_channel, destroy_channel, named_private, destroy}
use fserv.Bindings.Channels.Said
use fserv.Bindings.Channels.Said.{
  check_message, channel_text, public_text, private_text, refreshed, top,
}
use fserv.Bindings.Channels.Sound.{
  send_to_all-IsSound, send_to_channel-IsSound, send-IsSound, send_off-IsSound,
}
use fserv.Bindings.Channels.Sound.Calls.{
  Good, Keeps, then_Keeps, either_Keeps, or_Keeps, any_then, string_then, lchan_then, lcon_then,
}
use fserv.Bindings.Channels.Sound.Changes.{made-IsSound}

module _ {V J : Type 0} (lua : LuaApi V) (args : List V) (j : Jansson J) where
  check_message-Keeps :
      (real : V → J) (depth : ℕ) (prefix : Bytes) (n : ℕ) (message : Bytes)
      → Keeps (check_message lua j real depth args prefix n message)
  check_message-Keeps real depth prefix n message =
      either_Keeps (not (is_table (type_of lua args n))) _ _ (λ s g. g)
        (or_Keeps (lua_to_json lua j real depth (top args)) _ _ (λ root s g. g) (λ s g. tt))

  pub send_to_all-Keeps :
      (real : V → J) (depth : ℕ) → Keeps (Said.send_to_all lua j real depth args)
  unfolding Said.send_to_all
  send_to_all-Keeps real depth = any_then lua args 3 _ λ _. lchan_then lua args 1 _ λ c.
      string_then lua args 2 _ λ prefix.
        then_Keeps (check_message lua j real depth args prefix 3 _) _
          (check_message-Keeps real depth prefix 3 _)
          λ m s g. send_to_all-IsSound c m s.heap s.next g

  pub send_to_channel-Keeps :
      (real : V → J) (depth : ℕ) → Keeps (Said.send_to_channel lua j real depth args)
  unfolding Said.send_to_channel
  send_to_channel-Keeps real depth = any_then lua args 4 _ λ _. lchan_then lua args 1 _ λ c.
      lcon_then lua args 2 _ λ k. string_then lua args 3 _ λ prefix.
        then_Keeps (check_message lua j real depth args prefix 4 _) _
          (check_message-Keeps real depth prefix 4 _)
          λ m s g. send_to_channel-IsSound c k m s.heap s.next g

  pub send_ich-Keeps : Keeps (Said.send_ich j lua args)
  unfolding Said.send_ich
  send_ich-Keeps = any_then lua args 2 _ λ _.
      lchan_then lua args 1 _ λ c. lcon_then lua args 2 _ λ k s g. send-IsSound k _ s.heap s.next g

  pub send_cha-Keeps : (now later : ℤ) → Keeps (Said.send_cha j lua now later args)
  unfolding Said.send_cha
  send_cha-Keeps now later =
      any_then lua args 1 _ λ _. lcon_then lua args 1 _ λ k s g. send-IsSound k _ s.heap s.next g

  pub send_ors-Keeps : (now later : ℤ) → Keeps (Said.send_ors j lua now later args)
  unfolding Said.send_ors
  send_ors-Keeps now later =
      any_then lua args 1 _ λ _. lcon_then lua args 1 _ λ k s g. send-IsSound k _ s.heap s.next g

  destroy-Good :
      (now : ℤ) (name : Bytes) (o : Option ℕ) (s : Site) → Good s → Good (destroy j now name o s)
  unfolding destroy
  destroy-Good now name none s g = g
  destroy-Good now name (some c) s g =
      (send_off-IsSound j now c (s.heap.channels c).name (s.heap.channels c).participants s.heap
        s.next (g.agreed.counted c).simple (λ k h. h) g).0

  pub destroy_channel-Keeps : (now : ℤ) → Keeps (destroy_channel j lua now args)
  unfolding destroy_channel
  destroy_channel-Keeps now = any_then lua args 1 _ λ _.
      string_then lua args 1 _
        λ name s. destroy-Good now name (ServerState.get_channel name s.state) s

module _ (sha1_hash_string : Bytes → Bytes) (event_time : Bytes) (long_text : ℤ → Bytes) where
  named_private-Keeps :
      (title : Bytes) (k : ℕ) (o : Generated)
      → Keeps (named_private sha1_hash_string event_time long_text title k o)
  unfolding new_channel_of new_channel
  named_private-Keeps title k (overread state) s g = tt
  named_private-Keeps title k (unfinished state) s g = tt
  named_private-Keeps title k (generated namehash state) s g =
      made-IsSound namehash
        (set_title title (new_channel_of namehash ct_private (s.heap.connections k)))
        (record s { state = state }) refl
        (record { simple = tt; count_is = refl; top_bounds = ground arith }) g

  pub create_private_channel-Keeps :
      {V : Type 0} (lua : LuaApi V) (fuel : ℕ) (args : List V)
      → Keeps (create_private_channel sha1_hash_string event_time long_text lua fuel args)
  unfolding create_private_channel
  create_private_channel-Keeps lua fuel args = any_then lua args 2 _ λ _.
      lcon_then lua args 1 _
        λ k. string_then lua args 2 _ λ title s. named_private-Keeps title k _ s
