-- ===== src/Bindings/Channels/Members.antt =====
-- The bindings of src/lua_channel.cpp for who is in a channel, leads it or is invited.
use fserv.Prelude.{ℕ, Bool, ◌||◌, ◌&&◌, not, none, some, List, [], ◌∷◌, ◌++◌, if◌then◌else◌}
use fserv.Prelude.Bytes.{Bytes, codes, eq_bytes, c_str}
use fserv.Prelude.Int.{ℤ}
use fserv.Prelude.Maps.{Map, bytes_eq, add, remove}
use fserv.Connection.{Connection}
use fserv.Channel
use fserv.Channel.{Channel, ChannelType, ModRecord}
use fserv.Rooms
use fserv.Rooms.{join, part}
use fserv.ServerState.{get_connection}
use fserv.ServerState.Channels.{is_public, is_channel_op, rebuild_channel_op_list}
use fserv.Bindings.{
  LuaApi, Item, boolean, string, array, Site, Pushed, Call, Binding, ◌>>=◌, ◌>>◌, pure, lua_error,
  get_site, put_site, on_heap, on_channel, channel_of, connection_of, nothing, answer, check_any,
  check_string, get_lchan, get_lcon, by_name,
}
use fserv.Bindings.Channels.Fields.{is_ct_private}

abbrev pub strings : List Bytes → List Item
strings [] = []
strings (s ∷ ss) = string (c_str s) ∷ strings ss

abbrev pub mod_names : Map Bytes ModRecord → List Bytes
mod_names [] = []
mod_names ((name, r) ∷ m) = name ∷ mod_names m

abbrev pub add_role : Bytes → Connection → Connection
add_role role con = record con { roles = add role con.roles }

abbrev pub remove_role : Bytes → Connection → Connection
remove_role role con = record con { roles = remove role con.roles }

-- Whether the bottle may point at a participant; `name` is the spinner's.
abbrev pub is_bottle : Bytes → Connection → Bool
is_bottle name con =
    (eq_bytes con.status (codes "online") || eq_bytes con.status (codes "looking"))
    && not (eq_bytes con.character_name_lower name)

unfoldable pub bottle_names : Bytes → (ℕ → Connection) → List ℕ → List Bytes
bottle_names name cons [] = []
bottle_names name cons (k ∷ ks) =
    let rest = bottle_names name cons ks in
    if is_bottle name (cons k) then (cons k).character_name ∷ rest else rest

-- What follows the change of a moderator in a public channel: the set of channel operators is
-- built again, then `f` sees the connection registered under the name.
abbrev pub mod_changed : ℕ → Bytes → (ℕ → Site → Site) → Site → Site
mod_changed chan dest f s =
    let s' = record s { state = rebuild_channel_op_list s.heap s.state } in
    if is_public (s.heap.channels chan)
    then elim (get_connection dest s'.state) [ none ↦ s' | some k ↦ f k s' ]
    else s

abbrev pub with_connection_of : ℕ → (Connection → Connection) → Site → Site
with_connection_of k f s = record s { heap = Rooms.with_connection k f s.heap }

abbrev pub give_cop : ℕ → Site → Site
give_cop k = with_connection_of k (add_role (codes "cop"))

abbrev pub take_cop : Bytes → ℕ → Site → Site
take_cop dest k s =
    if not (is_channel_op dest s.state)
    then with_connection_of k (remove_role (codes "cop")) s
    else s

module _ {V : Type 0} (lua : LuaApi V) where
  unfoldable pub join_channel : ℤ → Binding V
  join_channel now args = do
    check_any lua args 2
    chan ← get_lchan lua args 1
    con ← get_lcon lua args 2
    on_heap (join now chan con)
    nothing

  unfoldable pub part_channel : ℤ → Binding V
  part_channel now args = do
    check_any lua args 2
    chan ← get_lchan lua args 1
    con ← get_lcon lua args 2
    on_heap (part now chan con)
    nothing

  unfoldable pub in_channel : Binding V
  in_channel args = do
    check_any lua args 2
    chan ← get_lchan lua args 1
    con ← get_lcon lua args 2
    ch ← channel_of chan
    answer (boolean (Channel.in_channel con ch))

  abbrev pub private_only : Channel → Call (List Pushed) → Call (List Pushed)
  private_only ch go_on =
      if not (is_ct_private ch.type)
      then lua_error (codes "Channel provided was not a private channel.")
      else go_on

  unfoldable pub invite : Binding V
  invite args = do
    check_any lua args 2
    chan ← get_lchan lua args 1
    k ← get_lcon lua args 2
    ch ← channel_of chan
    dest ← connection_of k
    private_only ch (do on_channel chan (Channel.invite dest); nothing)

  unfoldable pub remove_invite : Binding V
  remove_invite args = do
    check_any lua args 2
    chan ← get_lchan lua args 1
    dest ← check_string lua args 2
    ch ← channel_of chan
    private_only ch (do on_channel chan (Channel.remove_invite dest); nothing)

  unfoldable pub is_invited : Binding V
  is_invited args = do
    check_any lua args 2
    chan ← get_lchan lua args 1
    k ← get_lcon lua args 2
    ch ← channel_of chan
    con ← connection_of k
    private_only ch (answer (boolean (Channel.is_invited con ch)))

  unfoldable pub add_mod : ℤ → Binding V
  add_mod now args = do
    check_any lua args 3
    chan ← get_lchan lua args 1
    k ← get_lcon lua args 2
    dest ← check_string lua args 3
    src ← connection_of k
    on_channel chan (Channel.add_mod now src dest)
    s ← get_site
    put_site (mod_changed chan dest give_cop s)
    nothing

  unfoldable pub remove_mod : Binding V
  remove_mod args = do
    check_any lua args 2
    chan ← get_lchan lua args 1
    dest ← check_string lua args 2
    on_channel chan (Channel.rem_mod dest)
    s ← get_site
    put_site (mod_changed chan dest (take_cop dest) s)
    nothing

  unfoldable pub is_mod : Binding V
  is_mod args = do
    check_any lua args 2
    chan ← get_lchan lua args 1
    ch ← channel_of chan
    by_name lua args 2 (λ k. do con ← connection_of k; answer (boolean (Channel.is_mod con ch)))
        (λ name. answer (boolean (Channel.is_mod_name name ch)))
        (codes "isMod expects string or ConnectionPtr as argument 2.")

  unfoldable pub is_owner : Binding V
  is_owner args = do
    check_any lua args 2
    chan ← get_lchan lua args 1
    ch ← channel_of chan
    by_name lua args 2 (λ k. do con ← connection_of k; answer (boolean (Channel.is_owner con ch)))
        (λ name. answer (boolean (Channel.is_owner_name name ch)))
        (codes "isOwner expects string or ConnectionPtr as argument 2.")

  -- The owner, the moderators and, for a public channel, the super channel operators.
  unfoldable pub get_mod_list : Binding V
  get_mod_list args = do
    check_any lua args 1
    chan ← get_lchan lua args 1
    s ← get_site
    let ch = s.heap.channels chan
    let scops = if is_public ch then s.state.super_cop_list else []
    pure (array (strings (ch.owner ∷ (mod_names ch.moderators ++ scops))) ∷ [])

  unfoldable pub get_bottle_list : Binding V
  unfolding bottle_names
  get_bottle_list args = do
    check_any lua args 2
    chan ← get_lchan lua args 1
    k ← get_lcon lua args 2
    s ← get_site
    let name = (s.heap.connections k).character_name_lower
    let ch = s.heap.channels chan
    pure (array (strings (bottle_names name s.heap.connections ch.participants)) ∷ [])
