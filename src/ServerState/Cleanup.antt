-- ===== src/ServerState/Cleanup.antt =====
-- Which channels the cleanup leaves, and who the channel operators are.
use fserv.Prelude.{
  ℕ, ◌≡◌, refl, ap, sym, ◌∙◌, Bool, true, false, not, ◌&&◌, ◌||◌, Bool-cases, inl, inr, Option,
  none, some, List, [], ◌∷◌, arith, is_empty, length, if◌then◌else◌,
}
use fserv.Prelude.Bytes.{Bytes, eq_bytes, eq_bytes_iff}
use fserv.Prelude.Int.{ℤ, pos, ◌-ℤ◌, leb_ℤ, ltb_ℤ}
use fserv.Prelude.Maps.{
  Map, bytes_eq, lookup, has, Distinct, lookup-erase, same, same_iff, erase_absent, member, add,
  member-add,
}
use fserv.Channel.{
  Channel, ChannelType, ct_public, ct_private, ct_pubprivate, ModRecord, update_participant_count,
}
use fserv.Rooms.{Heap}
use fserv.ServerState.{ServerState, remove_channel, get_channel}
use fserv.ServerState.Channels.{
  insert_mods, is_public, channel_ops, rebuild_channel_op_list, is_channel_op, day, is_unused,
  unused_channels, remove_channels, remove_unused_channels,
}

abbrev pub is_open_private : ChannelType → Bool
is_open_private ct_public = false
is_open_private ct_private = false
is_open_private ct_pubprivate = true

-- A private channel open to all, with nobody in it, last used more than 86400 seconds before now.
abbrev pub is_abandoned : ℤ → Channel → Bool
is_abandoned now ch =
    is_open_private ch.type
    && is_empty ch.participants
    && ltb_ℤ ch.last_activity (now -ℤ pos 86_400)

is_unused_lem :
    (now : ℤ) (ch : Channel)
    → is_unused (now -ℤ day) (update_participant_count ch) ≡ is_abandoned now ch
unfolding update_participant_count
is_unused_lem now ch = by_type ch.type ch.participants
  where
    by_type :
        (t : ChannelType) (people : List ℕ)
        → elim t [
          | ct_pubprivate ↦
              leb_ℤ (pos (length people)) (pos 0) && ltb_ℤ ch.last_activity (now -ℤ day)
          | _ ↦ false
        ]
          ≡ (is_open_private t && is_empty people && ltb_ℤ ch.last_activity (now -ℤ pos 86_400))
    by_type ct_public people = refl
    by_type ct_private people = refl
    by_type ct_pubprivate [] = refl
    by_type ct_pubprivate (k ∷ people) =
        let someone : leb_ℤ (pos (length (k ∷ people))) (pos 0) ≡ false = ground arith in
        rw someone refl

-- The named channel, unless it is abandoned.
abbrev pub used : ℤ → (ℕ → Channel) → Option ℕ → Option ℕ
used now chans none = none
used now chans (some c) = if is_abandoned now (chans c) then none else some c

remove_channel-lookup :
    (name k : Bytes) (s : ServerState)
    → lookup k (remove_channel name s).channel_map
      ≡ (if same name k then none else lookup k s.channel_map)
unfolding remove_channel
remove_channel-lookup name k s = elim (Bool-cases (has name s.channel_map)) [
  | inl h ↦ rw h (lookup-erase name k s.channel_map)
  | inr h ↦
      rw h (
        ap (lookup k) (sym (erase_absent name s.channel_map h)) ∙ lookup-erase name k s.channel_map)
]

remove_channels-lookup :
    (names : List Bytes) (k : Bytes) (s : ServerState)
    → lookup k (remove_channels names s).channel_map
      ≡ (if member k names then none else lookup k s.channel_map)
unfolding remove_channels member
remove_channels-lookup [] k s = refl
remove_channels-lookup (name ∷ names) k s =
    ground (
      arith,
      remove_channels-lookup names k (remove_channel name s),
      remove_channel-lookup name k s,
    )

absent-unused_channels :
    (limit : ℤ) (chans : ℕ → Channel) (k : Bytes) (m : Map Bytes ℕ)
    → has k m ≡ false
    → member k (unused_channels limit chans m) ≡ false
unfolding unused_channels member has
absent-unused_channels limit chans k [] h = refl
absent-unused_channels limit chans k ((j, c) ∷ m) h =
    elim (Bool-cases (is_unused limit (update_participant_count (chans c)))) [
      | inl u ↦ rw u (ground (arith, absent-unused_channels limit chans k m))
      | inr u ↦ rw u (ground (arith, absent-unused_channels limit chans k m))
    ]

abbrev goes : ℤ → (ℕ → Channel) → Option ℕ → Bool
goes limit chans none = false
goes limit chans (some c) = is_unused limit (update_participant_count (chans c))

member-unused_channels :
    (limit : ℤ) (chans : ℕ → Channel) (k : Bytes) (m : Map Bytes ℕ)
    → Distinct m
    → member k (unused_channels limit chans m) ≡ goes limit chans (lookup k m)
unfolding unused_channels member lookup
member-unused_channels limit chans k [] d = refl
member-unused_channels limit chans k ((j, c) ∷ m) d = elim (Bool-cases (same j k)) [
  | inl e ↦
      let absent = absent-unused_channels limit chans j m d.0 in
      let e' = (same_iff j k).0 e in
      elim (Bool-cases (is_unused limit (update_participant_count (chans c)))) [
        | inl u ↦ rw (e, u) (rw e)
        | inr u ↦ rw (e, u) (rw (← e', absent))
      ]
  | inr e ↦ elim (Bool-cases (is_unused limit (update_participant_count (chans c)))) [
    | inl u ↦ rw (e, u) (rw e (member-unused_channels limit chans k m d.1))
    | inr u ↦ rw (e, u) (member-unused_channels limit chans k m d.1)
  ]
]

-- If every name stands once in the channel map, then after the cleanup a name finds the channel
-- that it found before, unless that channel is a private one open to all, has no participants, and
-- was last used more than 86400 seconds before now: such a channel, and no other, is gone.
pub remove_unused_channels-get_channel :
    (now : ℤ) (h : Heap) (s : ServerState) (name : Bytes)
    → Distinct s.channel_map
    → get_channel name (remove_unused_channels now h s).1 ≡ used now h.channels (get_channel name s)
unfolding remove_unused_channels get_channel
remove_unused_channels-get_channel now h s name d =
    remove_channels-lookup (unused_channels (now -ℤ day) h.channels s.channel_map) name s
    ∙ rw (member-unused_channels (now -ℤ day) h.channels name s.channel_map d)
        (by_entry (lookup name s.channel_map))
  where
    by_entry :
        (o : Option ℕ)
        → (if goes (now -ℤ day) h.channels o then none else o) ≡ used now h.channels o
    by_entry none = refl
    by_entry (some c) = rw (is_unused_lem now (h.channels c)) refl

-- Some public channel of the map has the name as a moderator.
abbrev pub moderates : (ℕ → Channel) → Bytes → Map Bytes ℕ → Bool
moderates chans name [] = false
moderates chans name ((k, c) ∷ m) =
    is_public (chans c) && has name (chans c).moderators || moderates chans name m

member-insert_mods :
    (name : Bytes) (mods : Map Bytes ModRecord) (ops : List Bytes)
    → member name (insert_mods mods ops)
      ≡ (member name ops || not (eq_bytes name []) && has name mods)
unfolding insert_mods has
member-insert_mods name [] ops = ground arith
member-insert_mods name ((k, r) ∷ mods) ops = ground (
  arith,
  member-insert_mods name mods (if eq_bytes k [] then ops else add k ops),
  member-add k name ops,
  eq_bytes_iff k name,
  eq_bytes_iff k [],
  eq_bytes_iff name [],
)

member-channel_ops :
    (chans : ℕ → Channel) (name : Bytes) (m : Map Bytes ℕ) (ops : List Bytes)
    → member name (channel_ops chans m ops)
      ≡ (member name ops || not (eq_bytes name []) && moderates chans name m)
unfolding channel_ops
member-channel_ops chans name [] ops = ground arith
member-channel_ops chans name ((k, c) ∷ m) ops = elim (Bool-cases (is_public (chans c))) [
  | inl p ↦ rw p (
      ground (
        arith,
        member-channel_ops chans name m (insert_mods (chans c).moderators ops),
        member-insert_mods name (chans c).moderators ops,
      ))
  | inr p ↦ rw p (ground (arith, member-channel_ops chans name m ops))
]

-- After the list is built again, a name is a channel operator exactly when it is not empty and
-- some public channel of the channel map has it among its moderators.
pub is_channel_op-rebuild_channel_op_list :
    (h : Heap) (s : ServerState) (name : Bytes)
    → is_channel_op name (rebuild_channel_op_list h s)
      ≡ (not (eq_bytes name []) && moderates h.channels name s.channel_map)
unfolding is_channel_op rebuild_channel_op_list member
is_channel_op-rebuild_channel_op_list h s name = member-channel_ops h.channels name s.channel_map []
