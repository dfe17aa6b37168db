-- ===== src/Bindings/Channels/Sound/Changes.antt =====
-- The functions of src/lua_channel.cpp that ask who is in a channel, change its lists, send as they
-- are told or make a channel of a given name keep channels and connections in agreement.
use fserv.Prelude.{
  ℕ, ◌≡◌, refl, sym, Bool, true, false, not, Bool-cases, inl, inr, Option, none, some, List, [],
  ◌==◌, if◌then◌else◌, arith,
}
use fserv.Prelude.Bytes.{Bytes, codes}
use fserv.Prelude.Int.{ℤ}
use fserv.Prelude.Maps.{member, nat_eq}
use fserv.Channel
use fserv.Channel.{
  Channel, new_channel, new_channel_of, ChannelType, ct_public, ct_private, set_title,
  set_can_destroy,
}
use fserv.Rooms.{with_channel}
use fserv.Rooms.Membership.{IsCounted}
use fserv.ServerState.{get_connection}
use fserv.ServerState.Channels.{is_public, is_channel_op, rebuild_channel_op_list}
use fserv.Bindings.{LuaApi, Site, Pushed, Call}
use fserv.Bindings.Channels.Fields.{is_ct_private}
use fserv.Bindings.Channels.Members
use fserv.Bindings.Channels.Members.{
  private_only, mod_changed, add_role, remove_role, give_cop, take_cop,
}
use fserv.Bindings.Channels.Rooms.{
  get_channel, create_channel, create_special_private_channel, made,
}
use fserv.Bindings.Channels.Said
use fserv.Bindings.Channels.Said.{
  check_message, channel_text, public_text, private_text, refreshed, top,
}
use fserv.Bindings.Channels.Sound.{
  with_channel-IsSound, Seated-IsSound, update-Seated, send_to_all-IsSound, send_to_channel-IsSound,
}
use fserv.Bindings.Channels.Sound.Calls.{
  Good, Keeps, either_Keeps, any_then, string_then, lchan_then, lcon_then, by_name-Keeps,
}

pub made-IsSound :
    (name : Bytes) (ch : Channel) (s : Site)
    → ch.participants ≡ []
    → IsCounted ch
    → Good s
    → Good (made name ch s)
unfolding member
made-IsSound name ch s empty counted v = record {
  agreed = record {
    linked = λ c k. elim (Bool-cases (s.next == c)) [
      | inl e ↦ rw e (rw empty (sym (v.unmade c k (ground (arith, e)))))
      | inr e ↦ rw e (v.agreed.linked c k)
    ];
    counted = λ c. elim (Bool-cases (s.next == c)) [
      | inl e ↦ rw e counted
      | inr e ↦ rw e (v.agreed.counted c)
    ];
  };
  unmade = λ c k later. v.unmade c k (ground (arith, later));
}

new_channel-IsCounted : (name : Bytes) (t : ChannelType) → IsCounted (new_channel name t)
unfolding new_channel
new_channel-IsCounted name t = record { simple = tt; count_is = refl; top_bounds = ground arith }

either_Good : (b : Bool) (s t : Site) → Good s → Good t → Good (if b then s else t)
either_Good true s t g h = g
either_Good false s t g h = h

given_Good :
    (o : Option ℕ) (f : ℕ → Site → Site) (s : Site)
    → ((k : ℕ) → Good (f k s))
    → Good s
    → Good (elim o as (λ x. Site) [ none ↦ s | some k ↦ f k s ])
given_Good none f s h g = g
given_Good (some k) f s h g = h k

mod_changed-Good :
    (chan : ℕ) (dest : Bytes) (f : ℕ → Site → Site) (s : Site)
    → ((k : ℕ) (t : Site) → Good t → Good (f k t))
    → Good s
    → Good (mod_changed chan dest f s)
mod_changed-Good chan dest f s keeps g =
    let s' : Site = record s { state = rebuild_channel_op_list s.heap s.state } in
    either_Good (is_public (s.heap.channels chan)) _ s
      (given_Good (get_connection dest s'.state) f s' (λ k. keeps k s' g) g) g

give_cop-Good : (k : ℕ) (s : Site) → Good s → Good (give_cop k s)
give_cop-Good k s =
    Seated-IsSound s.heap _ s.next
      (update-Seated s.heap.connections k (add_role (codes "cop") (s.heap.connections k)) refl)

take_cop-Good : (dest : Bytes) (k : ℕ) (s : Site) → Good s → Good (take_cop dest k s)
take_cop-Good dest k s g =
    either_Good (not (is_channel_op dest s.state)) _ s
      (Seated-IsSound s.heap _ s.next
        (update-Seated s.heap.connections k (remove_role (codes "cop") (s.heap.connections k)) refl)
        g)
      g

module _ {V : Type 0} (lua : LuaApi V) (args : List V) where
  pub in_channel-Keeps : Keeps (Members.in_channel lua args)
  unfolding Members.in_channel
  in_channel-Keeps =
      any_then lua args 2 _ λ _. lchan_then lua args 1 _ λ c. lcon_then lua args 2 _ λ k s g. g

  private_only-Keeps :
      (ch : Channel) (m : Call (List Pushed)) → Keeps m → Keeps (private_only lua ch m)
  private_only-Keeps ch m g = either_Keeps (not (is_ct_private ch.type)) _ _ (λ s h. h) g

  pub invite-Keeps : Keeps (Members.invite lua args)
  unfolding Members.invite Channel.invite
  invite-Keeps = any_then lua args 2 _ λ _. lchan_then lua args 1 _ λ c.
      lcon_then lua args 2 _ λ k s.
        private_only-Keeps (s.heap.channels c) _
          (λ t g.
            with_channel-IsSound c (Channel.invite (s.heap.connections k)) t.heap t.next
              (refl, refl, refl) g)
          s

  pub remove_invite-Keeps : Keeps (Members.remove_invite lua args)
  unfolding Members.remove_invite Channel.remove_invite
  remove_invite-Keeps = any_then lua args 2 _ λ _. lchan_then lua args 1 _ λ c.
      string_then lua args 2 _ λ dest s.
        private_only-Keeps (s.heap.channels c) _
          (λ t g.
            with_channel-IsSound c (Channel.remove_invite dest) t.heap t.next (refl, refl, refl) g)
          s

  pub is_invited-Keeps : Keeps (Members.is_invited lua args)
  unfolding Members.is_invited
  is_invited-Keeps = any_then lua args 2 _ λ _.
      lchan_then lua args 1 _
        λ c. lcon_then lua args 2 _ λ k s. private_only-Keeps (s.heap.channels c) _ (λ t g. g) s

  pub add_mod-Keeps : (now : ℤ) → Keeps (Members.add_mod lua now args)
  unfolding Members.add_mod Channel.add_mod
  add_mod-Keeps now = any_then lua args 3 _ λ _. lchan_then lua args 1 _ λ c.
      lcon_then lua args 2 _ λ k. string_then lua args 3 _ λ dest s g.
        let f : Channel → Channel = Channel.add_mod now (s.heap.connections k) dest in
        mod_changed-Good c dest give_cop (record s { heap = with_channel c f s.heap }) give_cop-Good
          (with_channel-IsSound c f s.heap s.next (refl, refl, refl) g)

  pub remove_mod-Keeps : Keeps (Members.remove_mod lua args)
  unfolding Members.remove_mod Channel.rem_mod
  remove_mod-Keeps = any_then lua args 2 _ λ _. lchan_then lua args 1 _ λ c.
      string_then lua args 2 _ λ dest s g.
        mod_changed-Good c dest (take_cop dest)
          (record s { heap = with_channel c (Channel.rem_mod dest) s.heap }) (take_cop-Good dest)
          (with_channel-IsSound c (Channel.rem_mod dest) s.heap s.next (refl, refl, refl) g)

  pub is_mod-Keeps : Keeps (Members.is_mod lua args)
  unfolding Members.is_mod
  is_mod-Keeps = any_then lua args 2 _ λ _.
      lchan_then lua args 1 _ λ c s. by_name-Keeps lua args 2 _ _ _ (λ k t g. g) (λ name t g. g) s

  pub is_owner-Keeps : Keeps (Members.is_owner lua args)
  unfolding Members.is_owner
  is_owner-Keeps = any_then lua args 2 _ λ _.
      lchan_then lua args 1 _ λ c s. by_name-Keeps lua args 2 _ _ _ (λ k t g. g) (λ name t g. g) s

  pub get_mod_list-Keeps : Keeps (Members.get_mod_list lua args)
  unfolding Members.get_mod_list
  get_mod_list-Keeps = any_then lua args 1 _ λ _. lchan_then lua args 1 _ λ c s g. g

  pub get_bottle_list-Keeps : Keeps (Members.get_bottle_list lua args)
  unfolding Members.get_bottle_list
  get_bottle_list-Keeps =
      any_then lua args 2 _ λ _. lchan_then lua args 1 _ λ c. lcon_then lua args 2 _ λ k s g. g

  pub send_to_all_raw-Keeps : Keeps (Said.send_to_all_raw lua args)
  unfolding Said.send_to_all_raw
  send_to_all_raw-Keeps = any_then lua args 2 _ λ _.
      lchan_then lua args 1 _
        λ c. string_then lua args 2 _ λ m s g. send_to_all-IsSound c m s.heap s.next g

  pub send_to_channel_raw-Keeps : Keeps (Said.send_to_channel_raw lua args)
  unfolding Said.send_to_channel_raw
  send_to_channel_raw-Keeps = any_then lua args 3 _ λ _. lchan_then lua args 1 _ λ c.
      lcon_then lua args 2 _
        λ k. string_then lua args 3 _ λ m s g. send_to_channel-IsSound c k m s.heap s.next g

  pub get_channel-Keeps : Keeps (get_channel lua args)
  unfolding get_channel
  get_channel-Keeps = any_then lua args 1 _ λ _. string_then lua args 1 _ λ name s g. g

  pub create_channel-Keeps : Keeps (create_channel lua args)
  unfolding create_channel
  create_channel-Keeps = any_then lua args 1 _ λ _. string_then lua args 1 _ λ name s.
      made-IsSound name (new_channel name ct_public) s (unfold new_channel in refl)
        (new_channel-IsCounted name ct_public)

  pub create_special_private_channel-Keeps : Keeps (create_special_private_channel lua args)
  unfolding create_special_private_channel new_channel
  create_special_private_channel-Keeps = any_then lua args 2 _ λ _. string_then lua args 1 _ λ name.
      string_then lua args 2 _ λ title s.
        made-IsSound name (set_can_destroy false (set_title title (new_channel name ct_private))) s
          refl (record { simple = tt; count_is = refl; top_bounds = ground arith })
