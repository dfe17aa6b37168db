-- ===== src/Rooms.antt =====
-- The operations of src/channel.cpp that change a channel and connections together: the heap
-- holds every channel and every connection under the number that stands for its pointer.
pub mod Membership
pub mod Delivery
use fserv.Prelude.{ℕ, ◌+◌, Bool, true, false, not, List, [], ◌∷◌, ◌==◌, if◌then◌else◌, length}
use fserv.Prelude.Bytes.{Bytes}
use fserv.Prelude.Int.{ℤ, pos, negsuc, ◌+ℤ◌, ltb_ℤ}
use fserv.Prelude.Maps.{bytes_eq, nat_eq, erase, add, remove}
use fserv.Connection.{Connection, from_string, send, join_channel, leave_channel}
use fserv.Channel.{Channel}

pub record Heap : Type 0 where
  pub channels : ℕ → Channel
  pub connections : ℕ → Connection

abbrev pub update {ℓ} : {A : Type ℓ} → (ℕ → A) → ℕ → A → ℕ → A
update f k v j = if k == j then v else f j

abbrev pub with_channel : ℕ → (Channel → Channel) → Heap → Heap
with_channel c f h = record h { channels = update h.channels c (f (h.channels c)) }

abbrev pub with_connection : ℕ → (Connection → Connection) → Heap → Heap
with_connection k f h = record h { connections = update h.connections k (f (h.connections k)) }

-- `Channel::join` on the channel's own fields.
unfoldable pub take_in : ℤ → ℕ → Channel → Channel
take_in now con ch =
    let count = ch.participant_count +ℤ pos 1 in
    record ch {
      last_activity = now;
      participant_count = count;
      participants = add con ch.participants;
      top_users = if ltb_ℤ ch.top_users count then count else ch.top_users;
    }

unfoldable pub join : ℤ → ℕ → ℕ → Heap → Heap
unfolding take_in
join now c con h = with_connection con (join_channel c) (with_channel c (take_in now con) h)

-- `Channel::part` on the channel's own fields.
unfoldable pub let_go : ℤ → ℕ → Bytes → Channel → Channel
let_go now con lower_name ch = record ch {
  last_activity = now;
  participant_count = ch.participant_count +ℤ negsuc 0;
  timer_map = erase lower_name ch.timer_map;
  participants = remove con ch.participants;
}

unfoldable pub part : ℤ → ℕ → ℕ → Heap → Heap
unfolding let_go
part now c con h =
    let lower_name = (h.connections con).character_name_lower in
    with_connection con (leave_channel c) (with_channel c (let_go now con lower_name) h)

unfoldable pub kick : ℤ → ℕ → ℕ → Heap → Heap
unfolding part
kick now c dest h = part now c dest h

unfoldable pub send_each : Bytes → List ℕ → (ℕ → Connection) → ℕ → Connection
send_each message [] cons = cons
send_each message (k ∷ ks) cons = send_each message ks (update cons k (send message (cons k)).0)

unfoldable pub send_to_all : ℕ → Bytes → Heap → Heap
unfolding send_each
send_to_all c message h = record h {
  connections = send_each (from_string message) (h.channels c).participants h.connections;
}

unfoldable pub send_others : Bytes → ℕ → List ℕ → (ℕ → Connection) → ℕ → Connection
send_others message src [] cons = cons
send_others message src (k ∷ ks) cons =
    send_others message src ks
      (if not (k == src) then update cons k (send message (cons k)).0 else cons)

unfoldable pub send_to_channel : ℕ → ℕ → Bytes → Heap → Heap
unfolding send_others
send_to_channel c src message h = record h {
  connections = send_others (from_string message) src (h.channels c).participants h.connections;
}
