-- ===== src/Bindings/Channels/Sound.antt =====
-- Which changes of src/lua_channel.cpp to the heap leave channels and connections in agreement.
pub mod Calls
pub mod Answers
pub mod Changes
pub mod Sends
pub mod Destroyed
use fserv.Prelude.{
  ℕ, suc, ◌≤◌, ◌≡◌, refl, sym, ◌∙◌, Bool, true, false, not, Bool-cases, inl, inr, List, [], ◌∷◌,
  ◌==◌, ◌||◌, ◌&&◌, ltb, ==_iff, arith, length, if◌then◌else◌,
}
use fserv.Prelude.Bytes.{Bytes}
use fserv.Prelude.Int.{ℤ, pos, ◌+ℤ◌, ◌≤ℤ◌}
use fserv.Prelude.Maps.{nat_eq, member, member-remove, remove, IsSimple}
use fserv.Json.{Jansson}
use fserv.Connection.{Connection, max_send_queue_items, send, leave_channel, from_string}
use fserv.Channel.{Channel}
use fserv.Rooms.{
  Heap, update, with_channel, with_connection, part, let_go, send_each, send_others, send_to_all,
  send_to_channel,
}
use fserv.Rooms.Membership.{IsCounted, IsLinked, part-IsLinked}
use fserv.Bindings.Channels.Rooms.{send_off, leave_text}

-- Channels and connections agree, and no connection is in a channel that is not made yet.
pub record IsSound (h : Heap) (next : ℕ) : Type 0 where
  pub agreed : IsLinked h
  pub unmade : (c k : ℕ) → next ≤ c → member c (h.connections k).channel_list ≡ false

-- The channel's people and their counts stay.
abbrev pub Settled : Channel → Channel → Type 0
Settled ch ch' =
    (ch'.participants ≡ ch.participants)
    × (ch'.participant_count ≡ ch.participant_count)
    × (ch'.top_users ≡ ch.top_users)

Settled-IsCounted : (ch ch' : Channel) → Settled ch ch' → IsCounted ch → IsCounted ch'
Settled-IsCounted ch ch' (p, n, t) v = record {
  simple = rw p v.simple;
  count_is = rw (p, n) v.count_is;
  top_bounds = rw (n, t) v.top_bounds;
}

pub with_channel-IsSound :
    (c : ℕ) (f : Channel → Channel) (h : Heap) (next : ℕ)
    → Settled (h.channels c) (f (h.channels c))
    → IsSound h next
    → IsSound (with_channel c f h) next
with_channel-IsSound c f h next settled v = record {
  agreed = record {
    linked = λ c' k. elim (Bool-cases (c == c')) [
      | inl e ↦ rw e (rw (settled.0) (rw ((==_iff c c').0 e) (v.agreed.linked c' k)))
      | inr e ↦ rw e (v.agreed.linked c' k)
    ];
    counted = λ c'. elim (Bool-cases (c == c')) [
      | inl e ↦
          rw e (Settled-IsCounted (h.channels c) (f (h.channels c)) settled (v.agreed.counted c))
      | inr e ↦ rw e (v.agreed.counted c')
    ];
  };
  unmade = v.unmade;
}

-- Connections that are in the channels they were in.
abbrev pub Seated : (ℕ → Connection) → (ℕ → Connection) → Type 0
Seated cons cons' = (k : ℕ) → (cons' k).channel_list ≡ (cons k).channel_list

pub Seated-IsSound :
    (h : Heap) (cons : ℕ → Connection) (next : ℕ)
    → Seated h.connections cons
    → IsSound h next
    → IsSound (record h { connections = cons }) next
Seated-IsSound h cons next seated v = record {
  agreed = record {
    linked = λ c k. rw (seated k) (v.agreed.linked c k);
    counted = v.agreed.counted;
  };
  unmade = λ c k later. rw (seated k) (v.unmade c k later);
}

pub update-Seated :
    (cons : ℕ → Connection) (k : ℕ) (con : Connection)
    → con.channel_list ≡ (cons k).channel_list
    → Seated cons (update cons k con)
update-Seated cons k con same j = elim (Bool-cases (k == j)) [
  | inl e ↦ rw e (rw (← (==_iff k j).0 e) same)
  | inr e ↦ rw e refl
]

pub send-channel_list :
    (m : Bytes) (con : Connection) → (send m con).0.channel_list ≡ con.channel_list
unfolding send
send-channel_list m con =
    elim (Bool-cases (con.closed || ltb max_send_queue_items (length con.write_queue))) [
      | inl e ↦ rw e refl
      | inr e ↦ rw e refl
    ]

send_each-Seated :
    (m : Bytes) (ks : List ℕ) (cons : ℕ → Connection) → Seated cons (send_each m ks cons)
unfolding send_each
send_each-Seated m [] cons j = refl
send_each-Seated m (k ∷ ks) cons j =
    send_each-Seated m ks (update cons k (send m (cons k)).0) j
    ∙ update-Seated cons k (send m (cons k)).0 (send-channel_list m (cons k)) j

either_Seated :
    (b : Bool) (cons cons' : ℕ → Connection)
    → Seated cons cons'
    → Seated cons (if b then cons' else cons)
either_Seated true cons cons' seated j = seated j
either_Seated false cons cons' seated j = refl

send_others-Seated :
    (m : Bytes) (src : ℕ) (ks : List ℕ) (cons : ℕ → Connection)
    → Seated cons (send_others m src ks cons)
unfolding send_others
send_others-Seated m src [] cons j = refl
send_others-Seated m src (k ∷ ks) cons j =
    send_others-Seated m src ks _ j
    ∙ either_Seated (not (k == src)) cons (update cons k (send m (cons k)).0)
        (update-Seated cons k (send m (cons k)).0 (send-channel_list m (cons k))) j

pub send_to_all-IsSound :
    (c : ℕ) (m : Bytes) (h : Heap) (next : ℕ) → IsSound h next → IsSound (send_to_all c m h) next
unfolding send_to_all
send_to_all-IsSound c m h next =
    Seated-IsSound h _ next
      (send_each-Seated (from_string m) (h.channels c).participants h.connections)

pub send_to_channel-IsSound :
    (c src : ℕ) (m : Bytes) (h : Heap) (next : ℕ)
    → IsSound h next
    → IsSound (send_to_channel c src m h) next
unfolding send_to_channel
send_to_channel-IsSound c src m h next =
    Seated-IsSound h _ next
      (send_others-Seated (from_string m) src (h.channels c).participants h.connections)

pub send-IsSound :
    (k : ℕ) (m : Bytes) (h : Heap) (next : ℕ)
    → IsSound h next
    → IsSound (with_connection k (λ con. (send m con).0) h) next
send-IsSound k m h next = Seated-IsSound h _ next (
    update-Seated h.connections k (send m (h.connections k)).0
      (send-channel_list m (h.connections k)))

part-IsSound :
    (now : ℤ) (c k : ℕ) (h : Heap) (next : ℕ)
    → member k (h.channels c).participants ≡ true
    → IsSound h next
    → IsSound (part now c k h) next
unfolding part leave_channel
part-IsSound now c k h next inside v = record {
  agreed = part-IsLinked now c k h inside v.agreed;
  unmade = λ c' j later. ground (
    arith,
    v.unmade c' j later,
    v.unmade c' k later,
    member-remove c c' (h.connections k).channel_list,
  );
}

part-participants :
    (now : ℤ) (c k : ℕ) (h : Heap)
    → ((part now c k h).channels c).participants ≡ remove k (h.channels c).participants
unfolding part let_go
part-participants now c k h = ground arith

other_stays :
    (k i : ℕ) (ks ps : List ℕ)
    → member k ks ≡ false
    → member i ks ≡ true
    → member i ps ≡ true
    → member i (remove k ps) ≡ true
other_stays k i ks ps out t h = elim (Bool-cases (k == i)) [
  | inl e ↦ absurd (ground (arith, (==_iff k i).0 e, out, t))
  | inr e ↦ member-remove k i ps ∙ rw e h
]

rest_stays :
    (k i : ℕ) (ks ps : List ℕ)
    → (member i (remove k ps) && not (member i ks)) ≡ (member i ps && not (member i (k ∷ ks)))
unfolding member
rest_stays k i ks ps = ground (arith, member-remove k i ps)

-- After the loop of `destroyChannel` over a list of participants everything is in agreement, and
-- in the channel are those that the list did not name.
module _ {J : Type 0} (j : Jansson J) (now : ℤ) (c : ℕ) (channame : Bytes) where
  pub send_off-IsSound :
      (ks : List ℕ) (h : Heap) (next : ℕ)
      → IsSimple ks
      → ((k : ℕ) → member k ks ≡ true → member k (h.channels c).participants ≡ true)
      → IsSound h next
      → IsSound (send_off j now c channame ks h) next
        × ((k : ℕ)
            → member k ((send_off j now c channame ks h).channels c).participants
              ≡ (member k (h.channels c).participants && not (member k ks)))
  unfolding send_off member
  send_off-IsSound [] h next d held v =
      (v, λ k. ground (arith, member k (h.channels c).participants))
  send_off-IsSound (k ∷ ks) h next (out, d) held v =
      let told =
        with_connection k (λ con. (send (from_string (leave_text j channame con)) con).0) h in
      let r =
        send_off-IsSound ks (part now c k told) next d
          (λ i t.
            rw (part-participants now c k told)
              (other_stays k i ks (h.channels c).participants out t (held i (ground (arith, t)))))
          (part-IsSound now c k told next (held k (ground arith)) (send-IsSound k _ h next v)) in
      (
        r.0,
        λ i.
            r.1 i
            ∙ (rw (part-participants now c k told) (rest_stays k i ks (h.channels c).participants)),
      )
