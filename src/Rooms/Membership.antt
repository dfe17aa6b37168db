-- ===== src/Rooms/Membership.antt =====
-- Channels and connections agree on who is in which channel, and a channel counts its people.
use fserv.Prelude.{
  ℕ, suc, ◌≡◌, refl, ap, List, [], ◌∷◌, true, false, Bool-cases, inl, inr, ◌==◌, arith, length,
}
use fserv.Prelude.Bytes.{Bytes}
use fserv.Prelude.Int.{ℤ, pos, ◌+ℤ◌, ◌≤ℤ◌}
use fserv.Prelude.Maps.{
  nat_eq, same, add, member, member-add, member-remove, IsSimple, add-IsSimple, remove-IsSimple,
  length-add, length-remove, bytes_eq,
}
use fserv.Connection.{join_channel, leave_channel}
use fserv.Channel.{Channel}
use fserv.Rooms.{Heap, take_in, let_go, join, part}

-- What a channel's fields say of each other.
pub record IsCounted (ch : Channel) : Type 0 where
  pub simple : IsSimple ch.participants
  pub count_is : ch.participant_count ≡ pos (length ch.participants)
  pub top_bounds : ch.participant_count ≤ℤ ch.top_users

pub record IsLinked (h : Heap) : Type 0 where
  pub linked :
      (c k : ℕ) → member k (h.channels c).participants ≡ member c (h.connections k).channel_list
  pub counted : (c : ℕ) → IsCounted (h.channels c)

take_in-IsCounted :
    (now : ℤ) (con : ℕ) (ch : Channel)
    → member con ch.participants ≡ false
    → IsCounted ch
    → IsCounted (take_in now con ch)
unfolding take_in ◌+ℤ◌
take_in-IsCounted now con ch out v = record {
  simple = add-IsSimple con ch.participants v.simple;
  count_is = ground (arith, length-add con ch.participants);
  top_bounds = ground arith;
}

let_go-IsCounted :
    (now : ℤ) (con : ℕ) (n : Bytes) (ch : Channel)
    → member con ch.participants ≡ true
    → IsCounted ch
    → IsCounted (let_go now con n ch)
unfolding let_go ◌+ℤ◌
let_go-IsCounted now con n ch inside v = record {
  simple = remove-IsSimple con ch.participants v.simple;
  count_is = ground (arith, length-remove con ch.participants v.simple);
  top_bounds = ground arith;
}

-- If the connection is not in the channel, then joining it keeps every channel's participants and
-- every connection's channel list in agreement, each participant held once, and every channel's
-- count equal to the number of its participants and at most its record.
pub join-IsLinked :
    (now : ℤ) (c con : ℕ) (h : Heap)
    → member con (h.channels c).participants ≡ false
    → IsLinked h
    → IsLinked (join now c con h)
unfolding join join_channel
join-IsLinked now c con h out v = record {
  linked = λ c' k. ground (
    arith,
    v.linked c' k,
    member-add con k (h.channels c).participants,
    member-add c c' (h.connections con).channel_list,
  );
  counted = λ c'. elim (Bool-cases (c == c')) [
    | inl e ↦ rw e (take_in-IsCounted now con (h.channels c) out (v.counted c))
    | inr e ↦ rw e (v.counted c')
  ];
}

-- If the connection is in the channel, then parting it keeps every channel's participants and
-- every connection's channel list in agreement, each participant held once, and every channel's
-- count equal to the number of its participants and at most its record.
pub part-IsLinked :
    (now : ℤ) (c con : ℕ) (h : Heap)
    → member con (h.channels c).participants ≡ true
    → IsLinked h
    → IsLinked (part now c con h)
unfolding part leave_channel
part-IsLinked now c con h inside v = record {
  linked = λ c' k. ground (
    arith,
    v.linked c' k,
    member-remove con k (h.channels c).participants,
    member-remove c c' (h.connections con).channel_list,
  );
  counted = λ c'. elim (Bool-cases (c == c')) [
    | inl e ↦ rw e (let_go-IsCounted now con _ (h.channels c) inside (v.counted c))
    | inr e ↦ rw e (v.counted c')
  ];
}

add_present : (x : ℕ) (xs : List ℕ) → member x xs ≡ true → add x xs ≡ xs
unfolding add member
add_present x [] inside = cc
add_present x (y ∷ xs) inside = elim (Bool-cases (same y x)) [
  | inl e ↦ rw e refl
  | inr e ↦ rw e (ap (◌∷◌ y) (add_present x xs (ground (arith, inside, e))))
]

-- If the connection is in the channel already and the channel counts its participants rightly,
-- then joining it leaves the participants as they were but counts one more than there are.
pub join_twice :
    (now : ℤ) (c con : ℕ) (h : Heap)
    → member con (h.channels c).participants ≡ true
    → (h.channels c).participant_count ≡ pos (length (h.channels c).participants)
    → (((join now c con h).channels c).participants ≡ (h.channels c).participants)
      × (((join now c con h).channels c).participant_count
          ≡ pos (suc (length ((join now c con h).channels c).participants)))
unfolding join take_in join_channel ◌+ℤ◌
join_twice now c con h inside counted =
    let here : (c == c) ≡ true = ground arith in
    let people = add_present con (h.channels c).participants inside in
    rw here (people, rw people (ground (arith, counted)))
