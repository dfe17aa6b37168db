-- ===== src/Bindings/Channels/Rooms.antt =====
-- The bindings of src/lua_channel.cpp that find, make and destroy channels. A channel that is made
-- gets the next free number.
use fserv.Prelude.{ℕ, suc, true, false, Option, none, some, List, [], ◌∷◌, ◌++◌, if◌then◌else◌}
use fserv.Prelude.Bytes.{Bytes, codes, c_str}
use fserv.Prelude.Int.{ℤ}
use fserv.Json.{Jansson, text}
use fserv.Connection.{Connection, from_string, send}
use fserv.Channel.{
  Channel, ct_public, ct_private, new_channel, new_channel_of, set_title, set_can_destroy,
}
use fserv.Rooms.{Heap, with_channel, with_connection, part}
use fserv.ServerState
use fserv.ServerState.{add_channel, remove_channel}
use fserv.ServerState.Channels.{is_public, rebuild_channel_op_list}
use fserv.ServerState.PrivateIds.{
  Generated, generated, overread, unfinished, generate_private_channel_id,
}
use fserv.Bindings.{
  Call, string, fault, get_lcon, LuaApi, boolean, channel, item, Site, Pushed, Binding, ◌>>=◌, ◌>>◌,
  pure, get_site, put_site, nothing, answer, check_any, check_string,
}

-- `new` and `addChannel`.
abbrev pub made : Bytes → Channel → Site → Site
made name ch s = record s {
  heap = with_channel s.next (λ _. ch) s.heap;
  next = suc s.next;
  state = add_channel name s.next s.state;
}

module _ {V : Type 0} (lua : LuaApi V) where
  abbrev pub found : Option ℕ → List Pushed
  found none = item (boolean false) ∷ []
  found (some c) = item (boolean true) ∷ item (channel c) ∷ []

  unfoldable pub get_channel : Binding V
  get_channel args = do
    check_any lua args 1
    channame ← check_string lua args 1
    s ← get_site
    pure (found (ServerState.get_channel channame s.state))

  unfoldable pub create_channel : Binding V
  create_channel args = do
    check_any lua args 1
    name ← check_string lua args 1
    s ← get_site
    put_site (made name (new_channel name ct_public) s)
    answer (channel s.next)

  unfoldable pub create_special_private_channel : Binding V
  create_special_private_channel args = do
    check_any lua args 2
    name ← check_string lua args 1
    title ← check_string lua args 2
    s ← get_site
    let privchan = set_can_destroy false (set_title title (new_channel name ct_private))
    put_site (made name privchan s)
    answer (channel s.next)

module _ {J : Type 0} (j : Jansson J) where
  abbrev pub leave_text : Bytes → Connection → Bytes
  leave_text channame con =
      codes "LCH "
      ++ c_str (
          j.json_dumps (
            j.json_object (
              (codes "channel", text j channame)
              ∷ (codes "character", text j con.character_name)
              ∷ [])))

  -- The loop over the participants: each is told, and parts.
  unfoldable pub send_off : ℤ → ℕ → Bytes → List ℕ → Heap → Heap
  send_off now c channame [] h = h
  send_off now c channame (k ∷ ks) h =
      let told =
        with_connection k (λ con. (send (from_string (leave_text channame con)) con).0) h in
      send_off now c channame ks (part now c k told)

  -- The branch for a channel that was found.
  unfoldable pub destroy : ℤ → Bytes → Option ℕ → Site → Site
  unfolding send_off
  destroy now name none s = s
  destroy now name (some c) s =
      let ch = s.heap.channels c in
      let h = send_off now c ch.name ch.participants s.heap in
      let state = remove_channel name s.state in
      record s { heap = h; state = if is_public ch then rebuild_channel_op_list h state else state }

  unfoldable pub destroy_channel : {V : Type 0} → LuaApi V → ℤ → Binding V
  unfolding destroy
  destroy_channel lua now args = do
    check_any lua args 1
    name ← check_string lua args 1
    s ← get_site
    put_site (destroy now name (ServerState.get_channel name s.state) s)
    nothing

-- The rounds of the loop over names are bounded by `fuel`; where they do not do, nothing is answered.
module _ (sha1_hash_string : Bytes → Bytes) (event_time : Bytes) (long_text : ℤ → Bytes) where
  abbrev pub named_private : Bytes → ℕ → Generated → Call (List Pushed)
  named_private title k (overread state) = fault
  named_private title k (unfinished state) = fault
  named_private title k (generated namehash state) = do
    s ← get_site
    let privchan = set_title title (new_channel_of namehash ct_private (s.heap.connections k))
    put_site (made namehash privchan (record s { state = state }))
    pure (item (string (c_str namehash)) ∷ item (channel s.next) ∷ [])

  unfoldable pub create_private_channel : {V : Type 0} → LuaApi V → ℕ → Binding V
  create_private_channel lua fuel args = do
    check_any lua args 2
    k ← get_lcon lua args 1
    title ← check_string lua args 2
    s ← get_site
    named_private title k (
        generate_private_channel_id sha1_hash_string event_time long_text fuel
          (s.heap.connections k) title s.state)
