-- ===== src/Channel/Bans.antt =====
-- The ban list: a timeout that has run out is as good as none, whoever notices it first.
use fserv.Prelude.{
  ◌≡◌, refl, ◌∙◌, Bool, true, false, not, ◌||◌, Bool-cases, inl, inr, Option, none, some, List, [],
  ◌∷◌, arith, if◌then◌else◌, Option-cases,
}
use fserv.Prelude.Bytes.{Bytes}
use fserv.Prelude.Int.{ℤ, pos, ◌+ℤ◌, leb_ℤ, eq_ℤ}
use fserv.Prelude.Maps.{
  Map, bytes_eq, lookup, erase, has, member, same, same_iff, lookup-insert, lookup-erase, Distinct,
}
use fserv.Connection.{Connection}
use fserv.Channel.{
  Channel, BanRecord, holds, ran_out, to_remove, erase_all, clean_expired_timeouts, is_banned_name,
  timeout_name,
}

-- A reader that tests `holds` and a reader that tests `ran_out` agree.
pub ran_out-not-holds : (now : ℤ) (b : BanRecord) → ran_out now b ≡ not (holds now b)
ran_out-not-holds now b = ground arith

lookup-erase_all :
    (ks : List Bytes) (k : Bytes) (m : Map Bytes BanRecord)
    → lookup k (erase_all ks m) ≡ (if member k ks then none else lookup k m)
unfolding erase_all member
lookup-erase_all [] k m = refl
lookup-erase_all (j ∷ ks) k m =
    ground (arith, lookup-erase_all ks k (erase j m), lookup-erase j k m)

member-to_remove_absent :
    (now : ℤ) (k : Bytes) (m : Map Bytes BanRecord)
    → has k m ≡ false
    → member k (to_remove now m) ≡ false
unfolding to_remove member has
member-to_remove_absent now k [] h = refl
member-to_remove_absent now k ((j, b) ∷ m) h = ground (arith, member-to_remove_absent now k m)

abbrev due : ℤ → Option BanRecord → Bool
due now none = false
due now (some b) = ran_out now b

member-to_remove :
    (now : ℤ) (k : Bytes) (m : Map Bytes BanRecord)
    → Distinct m
    → member k (to_remove now m) ≡ due now (lookup k m)
unfolding to_remove member lookup
member-to_remove now k [] d = refl
member-to_remove now k ((j, b) ∷ m) d = elim (Bool-cases (same j k)) [
  | inl e ↦
      let e' = (same_iff j k).0 e in
      let absent = member-to_remove_absent now j m d.0 in
      elim (Bool-cases (ran_out now b)) [
        | inl r ↦ rw (e, r) (rw e)
        | inr r ↦ rw (e, r) (rw (← e', absent))
      ]
  | inr e ↦ elim (Bool-cases (ran_out now b)) [
    | inl r ↦ rw (e, r) (rw e (member-to_remove now k m d.1))
    | inr r ↦ rw (e, r) (member-to_remove now k m d.1)
  ]
]

-- The ban that is in force.
abbrev pub in_force : ℤ → Option BanRecord → Option BanRecord
in_force now none = none
in_force now (some b) = if holds now b then some b else none

abbrev pub is_in_force : ℤ → Option BanRecord → Bool
is_in_force now none = false
is_in_force now (some b) = holds now b

-- In a ban list with one entry for each name, cleaning leaves for every name the ban that is in
-- force, a permanent one or one whose end is not before now, and no other.
clean_expired_timeouts-lookup :
    (now : ℤ) (ch : Channel) (k : Bytes)
    → Distinct ch.bans
    → lookup k (clean_expired_timeouts now ch).bans ≡ in_force now (lookup k ch.bans)
unfolding clean_expired_timeouts
clean_expired_timeouts-lookup now ch k d =
    lookup-erase_all (to_remove now ch.bans) k ch.bans
    ∙ rw (member-to_remove now k ch.bans d) (by_entry (lookup k ch.bans))
  where
    by_entry : (o : Option BanRecord) → (if due now o then none else o) ≡ in_force now o
    by_entry none = refl
    by_entry (some b) = rw (ran_out-not-holds now b) (by_test (holds now b) b)
      where
        by_test :
            (t : Bool) (b : BanRecord)
            → (if not t then none else some b) ≡ (if t then some b else none)
        by_test true b = refl
        by_test false b = refl

-- Asking whether a name is banned answers whether its ban is in force now, and at no time from
-- now on changes which ban of any name is in force.
pub is_banned_name-in_force :
    (now later : ℤ) (ch : Channel) (k j : Bytes)
    → leb_ℤ now later ≡ true
    → ((is_banned_name now k ch).1 ≡ is_in_force now (lookup k ch.bans))
      × (in_force later (lookup j (is_banned_name now k ch).0.bans)
          ≡ in_force later (lookup j ch.bans))
unfolding is_banned_name
is_banned_name-in_force now later ch k j h = elim (Option-cases (lookup k ch.bans)) [
  | inl e ↦ rw (e, is_banned_name) (refl, refl)
  | inr (b, e) ↦ elim (Bool-cases (holds now b)) [
    | inl y ↦ rw (e, is_banned_name, y) (refl, refl)
    | inr n ↦
        let n' : holds later b ≡ false = ground arith in
        rw (e, is_banned_name, n) (refl, rw (lookup-erase k j ch.bans) (same_name b e n'))
  ]
]
  where
    same_name :
        (b : BanRecord)
        → lookup k ch.bans ≡ some b
        → holds later b ≡ false
        → in_force later (if same k j then none else lookup j ch.bans)
          ≡ in_force later (lookup j ch.bans)
    same_name b e n = elim (Bool-cases (same k j)) [
      | inl s ↦ rw (s, ← (same_iff k j).0 s, e, n)
      | inr s ↦ rw s
    ]

-- After a timeout of a name, whatever ban it had before, asking at a time `t` finds the name banned
-- exactly if `t` is not behind the timeout's end, which is the length behind the second reading of
-- the clock, or if that end is 0; any other name is banned as its ban was in force before.
timeout_name-is_banned :
    (now later t : ℤ) (src : Connection) (dest k : Bytes) (duration : ℤ) (ch : Channel)
    → (is_banned_name t k (timeout_name now later src dest duration ch)).1 ≡ (
        if same dest k
        then eq_ℤ (later +ℤ duration) (pos 0) || leb_ℤ t (later +ℤ duration)
        else is_in_force t (lookup k ch.bans))
unfolding timeout_name
timeout_name-is_banned now later t src dest k duration ch =
    (is_banned_name-in_force t t (timeout_name now later src dest duration ch) k k (ground arith)).0
    ∙ rw (lookup-insert dest k _ ch.bans) (by_name (same dest k))
  where
    by_name :
        (s : Bool)
        → is_in_force t (
            if s
            then some
                (record { banner = src.character_name; time = now; timeout = later +ℤ duration })
            else lookup k ch.bans)
          ≡ (if s
              then eq_ℤ (later +ℤ duration) (pos 0) || leb_ℤ t (later +ℤ duration)
              else is_in_force t (lookup k ch.bans))
    by_name true = refl
    by_name false = refl
