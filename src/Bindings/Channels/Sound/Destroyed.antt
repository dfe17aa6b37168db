-- ===== src/Bindings/Channels/Sound/Destroyed.antt =====
-- What `destroyChannel` of src/lua_channel.cpp leaves of a channel.
use fserv.Prelude.{
  ℕ, ◌≡◌, refl, sym, ◌∙◌, Bool, true, false, not, ◌&&◌, Bool-cases, inl, inr, none, some,
  if◌then◌else◌,
}
use fserv.Prelude.Bytes.{Bytes}
use fserv.Prelude.Int.{ℤ}
use fserv.Prelude.Maps.{bytes_eq, nat_eq, member, has, lookup-erase, lookup_absent, same_refl}
use fserv.Json.{Jansson}
use fserv.ServerState.{ServerState, get_channel, remove_channel}
use fserv.ServerState.Channels.{is_public, rebuild_channel_op_list}
use fserv.Bindings.{Site}
use fserv.Bindings.Channels.Rooms.{destroy, send_off}
use fserv.Bindings.Channels.Sound.{send_off-IsSound}
use fserv.Bindings.Channels.Sound.Calls.{Good}

get_channel-remove_channel :
    (name : Bytes) (s : ServerState) → get_channel name (remove_channel name s) ≡ none
unfolding get_channel remove_channel
get_channel-remove_channel name s = elim (Bool-cases (has name s.channel_map)) [
  | inl e ↦ rw e (lookup-erase name name s.channel_map ∙ rw (same_refl name) refl)
  | inr e ↦ rw e (lookup_absent name s.channel_map e)
]

either_none :
    (b : Bool) (name : Bytes) (s t : ServerState)
    → get_channel name s ≡ none
    → get_channel name t ≡ none
    → get_channel name (if b then s else t) ≡ none
either_none true name s t h k = h
either_none false name s t h k = k

emptied : (a b : Bool) → a ≡ b → (b && not b) ≡ false
emptied a true h = refl
emptied a false h = refl

-- If channels and connections agree, then after `destroyChannel` found a channel under a name
-- nobody is in the channel, no connection lists it, and there is none under the name.
pub destroy_lem :
    {J : Type 0} (j : Jansson J) (now : ℤ) (name : Bytes) (c : ℕ) (s : Site)
    → Good s
    → ((k : ℕ)
        → (member k ((destroy j now name (some c) s).heap.channels c).participants ≡ false)
          × (member c ((destroy j now name (some c) s).heap.connections k).channel_list ≡ false))
      × (get_channel name (destroy j now name (some c) s).state ≡ none)
unfolding destroy
destroy_lem j now name c s g =
    let ch = s.heap.channels c in
    let done =
      send_off-IsSound j now c ch.name ch.participants s.heap s.next (g.agreed.counted c).simple
        (λ k h. h) g in
    let h = send_off j now c ch.name ch.participants s.heap in
    let empty : (k : ℕ) → member k (h.channels c).participants ≡ false =
      λ k. done.1 k ∙ emptied _ _ refl in
    (
      λ k. (empty k, sym (done.0.agreed.linked c k) ∙ empty k),
      either_none (is_public ch) name _ _
          (unfold get_channel in
            unfold rebuild_channel_op_list in get_channel-remove_channel name s.state)
          (get_channel-remove_channel name s.state),
    )
