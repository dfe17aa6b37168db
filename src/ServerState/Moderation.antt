-- ===== src/ServerState/Moderation.antt =====
-- What the lists of bans, timeouts, alt watches and operators give back.
use fserv.Prelude.{
  ◌≡◌, refl, ap, ◌∙◌, ◌⊎◌, Bool, true, false, not, ◌&&◌, ◌||◌, Bool-cases, inl, inr, Option, none,
  some, List, [], ◌∷◌, arith, if◌then◌else◌,
}
use fserv.Prelude.Bytes.{Bytes, eq_bytes, eq_bytes_iff, lowered}
use fserv.Prelude.Int.{ℤ, ltb_ℤ}
use fserv.Prelude.Maps.{
  lookup_absent, Map, bytes_eq, int_eq, lookup, erase, has, Distinct, lookup-erase, same, same_iff,
  same_refl, member,
}
use fserv.ServerState.{ServerState, TimeoutRecord, AltWatchRecord}
use fserv.ServerState.Lists.{
  iequals, op_member, op_insert, op_erase, add_op, remove_op, is_op, erase_ban, remove_ban,
  drop_timeouts, alt_watches_to_erase, erase_alt_watches, clean_alt_watch_list,
}

-- Nobody is banned under that name.
abbrev pub IsUnused : Bytes → Map ℤ Bytes → Type 0
IsUnused character m = (id : ℤ) → ¬ (lookup id m ≡ some character)

-- One account that was banned under that name is not banned any more; the others are as before.
abbrev pub IsPardon : Bytes → Map ℤ Bytes → Map ℤ Bytes → Type 0
IsPardon character m m' =
    (id : ℤ) × (lookup id m ≡ some character)
    × ((j : ℤ) → lookup j m' ≡ (if same id j then none else lookup j m))

abbrev IsErased : Bytes → Map ℤ Bytes → Map ℤ Bytes × Bool → Type 0
IsErased character m (m', true) = IsPardon character m m'
IsErased character m (m', false) = (m' ≡ m) × IsUnused character m

-- An entry in front changes nothing.
cons-IsErased :
    (character name : Bytes) (id : ℤ) (m : Map ℤ Bytes) (r : Map ℤ Bytes × Bool)
    → eq_bytes name character ≡ false
    → has id m ≡ false
    → IsErased character m r
    → IsErased character ((id, name) ∷ m) ((id, name) ∷ r.0, r.1)
unfolding lookup
cons-IsErased character name id m (m', true) other out (i, e, rest) = (
  i,
  ground (arith, same_iff id i, lookup_absent i m),
  λ j.
      ground (
        arith,
        same_iff i j,
        same_iff i id,
        same_iff id j,
        same_iff id i,
        rest j,
        lookup_absent i m,
      ),
)
cons-IsErased character name id m (m', false) other out (e, u) =
    (ap (λ x. (id, name) ∷ x) e, λ j. ground (arith, u j, eq_bytes_iff name character))

erase_ban-IsErased :
    (character : Bytes) (m : Map ℤ Bytes)
    → Distinct m
    → IsErased character m (erase_ban character m)
unfolding erase_ban lookup
erase_ban-IsErased character [] d = (refl, λ id e. ground arith)
erase_ban-IsErased character ((id, name) ∷ m) d = elim (Bool-cases (eq_bytes name character)) [
  | inl h ↦ rw h (
    id,
    ground (arith, same_refl id, eq_bytes_iff name character),
    λ j. ground (arith, same_iff id j, lookup_absent id m),
  )
  | inr h ↦ rw h (
      cons-IsErased character name id m (erase_ban character m) h d.0
        (erase_ban-IsErased character m d.1))
]

-- If every account stands once in the list of bans, then unbanning a name reports whether some
-- account is banned under it: if so, exactly one such account loses its ban and every other
-- account keeps what it had; if not, the list stays as it is.
remove_ban_lem :
    (character : Bytes) (s : ServerState)
    → Distinct s.ban_list
    → ((remove_ban character s).1 ≡ true)
        × IsPardon character s.ban_list (remove_ban character s).0.ban_list
      ⊎ ((remove_ban character s).1 ≡ false)
        × ((remove_ban character s).0.ban_list ≡ s.ban_list)
        × IsUnused character s.ban_list
unfolding remove_ban
remove_ban_lem character s d =
    by_result (erase_ban character s.ban_list) (erase_ban-IsErased character s.ban_list d)
  where
    by_result :
        (r : Map ℤ Bytes × Bool)
        → IsErased character s.ban_list r
        → (r.1 ≡ true) × IsPardon character s.ban_list r.0
          ⊎ (r.1 ≡ false) × (r.0 ≡ s.ban_list) × IsUnused character s.ban_list
    by_result (m, true) p = inl (refl, p)
    by_result (m, false) p = inr (refl, p.0, p.1)

abbrev pub lives : ℤ → Option TimeoutRecord → Option TimeoutRecord
lives now none = none
lives now (some t) = if ltb_ℤ t.end now then none else some t

-- If every account stands once in the list of timeouts, then the clearing before the bans are
-- saved takes away the timeout of an account exactly when its end lies before now.
pub lookup-drop_timeouts :
    (now : ℤ) (id : ℤ) (m : Map ℤ TimeoutRecord)
    → Distinct m
    → lookup id (drop_timeouts now m) ≡ lives now (lookup id m)
unfolding drop_timeouts lookup
lookup-drop_timeouts now id [] d = refl
lookup-drop_timeouts now id ((j, t) ∷ m) d =
    ground (arith, same_iff j id, lookup-drop_timeouts now id m d.1, lookup_absent id m)

abbrev pub watched : ℤ → Option AltWatchRecord → Option AltWatchRecord
watched now none = none
watched now (some r) = if ltb_ℤ r.end now then none else some r

erase_alt_watches-other :
    (ids : List ℤ) (k : ℤ) (m : Map ℤ AltWatchRecord)
    → lookup k (erase_alt_watches ids m) ≡ (if member k ids then none else lookup k m)
unfolding erase_alt_watches member
erase_alt_watches-other [] k m = refl
erase_alt_watches-other (id ∷ ids) k m =
    ground (arith, erase_alt_watches-other ids k (erase id m), lookup-erase id k m)

absent-alt_watches_to_erase :
    (now k : ℤ) (m : Map ℤ AltWatchRecord)
    → has k m ≡ false
    → member k (alt_watches_to_erase now m) ≡ false
unfolding alt_watches_to_erase member has
absent-alt_watches_to_erase now k [] h = refl
absent-alt_watches_to_erase now k ((j, r) ∷ m) h =
    ground (arith, absent-alt_watches_to_erase now k m)

abbrev expired : ℤ → Option AltWatchRecord → Bool
expired now none = false
expired now (some r) = ltb_ℤ r.end now

member-alt_watches_to_erase :
    (now k : ℤ) (m : Map ℤ AltWatchRecord)
    → Distinct m
    → member k (alt_watches_to_erase now m) ≡ expired now (lookup k m)
unfolding alt_watches_to_erase member lookup
member-alt_watches_to_erase now k [] d = refl
member-alt_watches_to_erase now k ((j, r) ∷ m) d = elim (Bool-cases (same j k)) [
  | inl e ↦
      let absent = absent-alt_watches_to_erase now j m d.0 in
      let e' = (same_iff j k).0 e in
      elim (Bool-cases (ltb_ℤ r.end now)) [
        | inl l ↦ rw (e, l) (rw e)
        | inr l ↦ rw (e, l) (rw (← e', absent))
      ]
  | inr e ↦ elim (Bool-cases (ltb_ℤ r.end now)) [
    | inl l ↦ rw (e, l) (rw e (member-alt_watches_to_erase now k m d.1))
    | inr l ↦ rw (e, l) (member-alt_watches_to_erase now k m d.1)
  ]
]

-- If every account stands once in the alt watch list, then cleaning it takes away the watch of an
-- account exactly when its end lies before now.
clean_alt_watch_list-lookup :
    (now id : ℤ) (s : ServerState)
    → Distinct s.alt_watch_list
    → lookup id (clean_alt_watch_list now s).alt_watch_list
      ≡ watched now (lookup id s.alt_watch_list)
unfolding clean_alt_watch_list
clean_alt_watch_list-lookup now id s d =
    erase_alt_watches-other (alt_watches_to_erase now s.alt_watch_list) id s.alt_watch_list
    ∙ rw (member-alt_watches_to_erase now id s.alt_watch_list d)
        (by_entry (lookup id s.alt_watch_list))
  where
    by_entry : (o : Option AltWatchRecord) → (if expired now o then none else o) ≡ watched now o
    by_entry none = refl
    by_entry (some r) = refl

-- After `op` was added, the operators are those of before and every name that differs from `op`
-- in case only, in whatever case it was added and is asked for.
pub is_op-add_op :
    (op other : Bytes) (s : ServerState)
    → is_op other (add_op op s) ≡ (iequals op other || is_op other s)
unfolding is_op add_op op_member op_insert iequals
is_op-add_op op other s = inserted s.op_list
  where
    inserted :
        (ops : List Bytes)
        → op_member other (op_insert op ops) ≡ (iequals op other || op_member other ops)
    inserted [] = ground arith
    inserted (x ∷ ops) = ground (
      arith,
      inserted ops,
      eq_bytes_iff (lowered x) (lowered op),
      eq_bytes_iff (lowered x) (lowered other),
      eq_bytes_iff (lowered op) (lowered other),
    )

-- After `op` was removed, the operators are those of before less every name that differs from it
-- in case only.
is_op-remove_op :
    (op other : Bytes) (s : ServerState)
    → is_op other (remove_op op s) ≡ (not (iequals op other) && is_op other s)
unfolding is_op remove_op op_member op_erase iequals
is_op-remove_op op other s = erased s.op_list
  where
    erased :
        (ops : List Bytes)
        → op_member other (op_erase op ops) ≡ (not (iequals op other) && op_member other ops)
    erased [] = ground arith
    erased (x ∷ ops) = ground (
      arith,
      erased ops,
      eq_bytes_iff (lowered x) (lowered op),
      eq_bytes_iff (lowered x) (lowered other),
      eq_bytes_iff (lowered op) (lowered other),
    )
