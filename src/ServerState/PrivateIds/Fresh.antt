-- ===== src/ServerState/PrivateIds/Fresh.antt =====
-- When the loop of `generatePrivateChannelID` ends, and with what name.
use fserv.Prelude.{
  ℕ, zero, suc, ◌<◌, ◌≡◌, refl, true, false, Bool-cases, inl, inr, none, some, Option-cases, arith,
  length,
}
use fserv.Prelude.Bytes.{Bytes, lowered}
use fserv.Prelude.Int.{ℤ, pos, ◌+ℤ◌}
use fserv.Prelude.Maps.{
  Map, bytes_eq, lookup, has, erase, Distinct, erase-Distinct, length-erase, has-erase,
  lookup_absent, same, same_iff,
}
use fserv.Connection.{Connection}
use fserv.ServerState.{ServerState, get_channel}
use fserv.ServerState.PrivateIds.{
  Generated, generated, private_channel_id, generate_private_channel_id,
}

shift : (n : ℤ) (i : ℕ) → (n +ℤ pos 1) +ℤ pos (suc i) ≡ n +ℤ pos (suc (suc i))
unfolding ◌+ℤ◌
shift n i = ground arith

has_of_lookup : (k : Bytes) (v : ℕ) (m : Map Bytes ℕ) → lookup k m ≡ some v → has k m ≡ true
has_of_lookup k v m h = elim (Bool-cases (has k m)) [
  | inl e ↦ e
  | inr e ↦ ground (arith, h, lookup_absent k m e)
]

erase_short :
    (k : Bytes) (m : Map Bytes ℕ) (n : ℕ)
    → Distinct m
    → has k m ≡ true
    → length m < suc n
    → length (erase k m) < n
erase_short k m n d h short = ground (arith, length-erase k m d, h, short)

module _ (sha1_hash_string : Bytes → Bytes) (event_time : Bytes) (long_text : ℤ → Bytes) where
  -- The name is free, and only the seed has changed.
  abbrev pub IsFresh : Generated → ServerState → Type 0
  IsFresh g s =
      (namehash : Bytes) × (seed : ℤ) × (g ≡ generated namehash (record s { channel_seed = seed }))
      × (get_channel (lowered namehash) s ≡ none)

  -- The next `fuel` seeds have these names, which are different in lower case.
  abbrev pub Names : Connection → Bytes → ℕ → (ℕ → Bytes) → ℤ → Type 0
  Names con title fuel ids seed =
      ((i : ℕ)
        → i < fuel
        → private_channel_id sha1_hash_string event_time long_text con title (seed +ℤ pos (suc i))
          ≡ some (ids i))
      × ((i j : ℕ) → i < fuel → j < fuel → lowered (ids i) ≡ lowered (ids j) → i ≡ j)

  later_Names :
      (con : Connection) (title : Bytes) (fuel : ℕ) (ids : ℕ → Bytes) (seed : ℤ)
      → Names con title (suc fuel) ids seed
      → Names con title fuel (λ i. ids (suc i)) (seed +ℤ pos 1)
  later_Names con title fuel ids seed (named, apart) = (
    λ i h. rw (shift seed i) (named (suc i) (omega (arith, h))),
    λ i j h h' e. omega (arith, apart (suc i) (suc j) (omega (arith, h)) (omega (arith, h')) e),
  )

  other_name :
      (con : Connection) (title : Bytes) (fuel : ℕ) (ids : ℕ → Bytes) (seed : ℤ)
      → Names con title (suc fuel) ids seed
      → (i : ℕ) → i < fuel
      → same (lowered (ids 0)) (lowered (ids (suc i))) ≡ false
  other_name con title fuel ids seed (named, apart) i h =
      elim (Bool-cases (same (lowered (ids 0)) (lowered (ids (suc i))))) [
        | inl e ↦ absurd (
            omega (
              arith,
              apart 0 (suc i) (omega arith) (omega (arith, h))
                  ((same_iff (lowered (ids 0)) (lowered (ids (suc i)))).0 e),
            ))
        | inr e ↦ e
      ]

  generate_taken :
      (con : Connection) (title : Bytes) (fuel : ℕ) (namehash : Bytes) (chan : ℕ) (s : ServerState)
      → private_channel_id sha1_hash_string event_time long_text con title (s.channel_seed +ℤ pos 1)
        ≡ some namehash
      → get_channel (lowered namehash) s ≡ some chan
      → generate_private_channel_id sha1_hash_string event_time long_text (suc fuel) con title s
        ≡ generate_private_channel_id sha1_hash_string event_time long_text fuel con title
            (record s { channel_seed = s.channel_seed +ℤ pos 1 })
  unfolding generate_private_channel_id get_channel
  generate_taken con title fuel namehash chan s first taken =
      rw (first, generate_private_channel_id) (rw (taken, get_channel) refl)

  -- `m` holds each of the names that is taken.
  generate_within :
      (con : Connection) (title : Bytes) (fuel : ℕ) (ids : ℕ → Bytes) (m : Map Bytes ℕ)
      (s : ServerState)
      → Names con title fuel ids s.channel_seed
      → Distinct m
      → length m < fuel
      → ((i : ℕ)
          → i < fuel
          → has (lowered (ids i)) s.channel_map ≡ true
          → has (lowered (ids i)) m ≡ true)
      → IsFresh
          (generate_private_channel_id sha1_hash_string event_time long_text fuel con title s)
          s
  unfolding generate_private_channel_id get_channel
  generate_within con title zero ids m s names d short held = absurd (omega (arith, short))
  generate_within con title (suc fuel) ids m s names d short held =
      let first = names.0 0 (omega arith) in
      elim (Option-cases (lookup (lowered (ids 0)) s.channel_map)) [
        | inl free ↦ (
          ids 0,
          s.channel_seed +ℤ pos 1,
          rw (first, generate_private_channel_id) (rw (free, get_channel) refl),
          free,
        )
        | inr (chan, taken) ↦ rw (generate_taken con title fuel (ids 0) chan s first taken) (
            generate_within con title fuel (λ i. ids (suc i)) (erase (lowered (ids 0)) m)
              (record s { channel_seed = s.channel_seed +ℤ pos 1 })
              (later_Names con title fuel ids s.channel_seed names)
              (erase-Distinct (lowered (ids 0)) m d)
              (erase_short (lowered (ids 0)) m fuel d
                (held 0 (omega arith) (has_of_lookup (lowered (ids 0)) chan s.channel_map taken))
                short)
              (λ i h t. rw (has-erase (lowered (ids 0)) (lowered (ids (suc i))) m) (
                rw (other_name con title fuel ids s.channel_seed names i h)
                  (held (suc i) (omega (arith, h)) t))))
      ]

  -- If the next names, one more than there are channels, are different from each other in lower
  -- case and none of them overruns the array, then with that many rounds the loop returns a name
  -- under which there is no channel, and of the state it changes the seed at most.
  pub generate_private_channel_id-IsFresh :
      (con : Connection) (title : Bytes) (ids : ℕ → Bytes) (s : ServerState)
      → Distinct s.channel_map
      → Names con title (suc (length s.channel_map)) ids s.channel_seed
      → IsFresh
          (generate_private_channel_id sha1_hash_string event_time long_text
            (suc (length s.channel_map))
            con
            title
            s)
          s
  generate_private_channel_id-IsFresh con title ids s d names =
      generate_within con title (suc (length s.channel_map)) ids s.channel_map s names d
        (omega arith) (λ i h t. t)
