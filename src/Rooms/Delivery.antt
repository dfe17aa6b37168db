-- ===== src/Rooms/Delivery.antt =====
-- Who gets a channel's message.
use fserv.Prelude.{
  ℕ, ◌≡◌, refl, ◌∙◌, Bool, true, false, ◌&&◌, not, Bool-cases, inl, inr, List, [], ◌∷◌, ◌==◌,
  ==_iff, arith, if◌then◌else◌,
}
use fserv.Prelude.Bytes.{Bytes}
use fserv.Prelude.Maps.{nat_eq, member, IsSimple}
use fserv.Connection.{Connection, from_string, send}
use fserv.Rooms.{Heap, update, send_each, send_others, send_to_all, send_to_channel}

send_each_lem :
    (m : Bytes) (ks : List ℕ) (cons : ℕ → Connection) (j : ℕ)
    → IsSimple ks
    → send_each m ks cons j ≡ (if member j ks then (send m (cons j)).0 else cons j)
unfolding send_each member
send_each_lem m [] cons j d = refl
send_each_lem m (k ∷ ks) cons j d =
    send_each_lem m ks (update cons k (send m (cons k)).0) j d.1 ∙ elim (Bool-cases (k == j)) [
      | inl e ↦
          let e' = (==_iff k j).0 e in let a : member j ks ≡ false = rw (← e') d.0 in rw (e, a, e')
      | inr e ↦ rw e
    ]

send_others_lem :
    (m : Bytes) (src : ℕ) (ks : List ℕ) (cons : ℕ → Connection) (j : ℕ)
    → IsSimple ks
    → send_others m src ks cons j
      ≡ (if member j ks && not (j == src) then (send m (cons j)).0 else cons j)
unfolding send_others member
send_others_lem m src [] cons j d = refl
send_others_lem m src (k ∷ ks) cons j d = elim (Bool-cases (k == src)) [
  | inl e ↦ rw e (
      send_others_lem m src ks cons j d.1 ∙ elim (Bool-cases (k == j)) [
        | inl s ↦ let j' : j == src ≡ true = ground arith in rw (s, j', and_false (member j ks))
        | inr s ↦ rw s
      ])
  | inr e ↦ rw e (
      send_others_lem m src ks (update cons k (send m (cons k)).0) j d.1
      ∙ elim (Bool-cases (k == j)) [
        | inl s ↦
            let s' = (==_iff k j).0 s in
            let a : member j ks ≡ false = rw (← s') d.0 in
            let j' : j == src ≡ false = rw (← s') e in rw (s, a, j', s')
        | inr s ↦ rw s
      ])
]
  where
    and_false : (b : Bool) → (b && false) ≡ false
    and_false true = refl
    and_false false = refl

-- If the channel holds each participant once, then a message to it is sent once to each participant,
-- and every other connection is as it was.
send_to_all_lem :
    (c : ℕ) (m : Bytes) (h : Heap) (j : ℕ)
    → IsSimple (h.channels c).participants
    → (send_to_all c m h).connections j ≡ (
        if member j (h.channels c).participants
        then (send (from_string m) (h.connections j)).0
        else h.connections j)
unfolding send_to_all
send_to_all_lem c m h j = send_each_lem (from_string m) (h.channels c).participants h.connections j

-- If the channel holds each participant once, then a message from `src` is sent once to each
-- participant but `src`, and every other connection, that of `src` too, is as it was.
pub send_to_channel_lem :
    (c src : ℕ) (m : Bytes) (h : Heap) (j : ℕ)
    → IsSimple (h.channels c).participants
    → (send_to_channel c src m h).connections j ≡ (
        if member j (h.channels c).participants && not (j == src)
        then (send (from_string m) (h.connections j)).0
        else h.connections j)
unfolding send_to_channel
send_to_channel_lem c src m h j =
    send_others_lem (from_string m) src (h.channels c).participants h.connections j
