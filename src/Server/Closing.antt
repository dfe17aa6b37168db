-- ===== src/Server/Closing.antt =====
-- How src/server.cpp closes a connection: `prepareShutdownConnection`, `shutdownConnection` and
-- `connectionTimerCallback`. The log holds the effects outside the server's own state; a watcher
-- that is deleted counts as stopped.
use fserv.Prelude.{
  ℕ, ◌≡◌, ◌∙◌, refl, ap, Bool, true, false, ◌||◌, Bool-cases, inl, inr, Option, none, some, List,
  [], ◌∷◌, ◌++◌, ◌==◌, arith, if◌then◌else◌,
}
use fserv.Prelude.Bytes.{Bytes}
use fserv.Prelude.Int.{pos, ◌+ℤ◌, ◌-ℤ◌, ltb_ℤ}
use fserv.Prelude.Maps.{bytes_eq, nat_eq, lookup, lookup-erase, same_refl, member, member-remove}
use fserv.Connection.{Connection, Ticks, Timer}
use fserv.Rooms.{Heap, with_connection}
use fserv.ServerState.{ServerState, remove_connection, removed_unidentified, forget_connection}
use fserv.Websocket.{protocol_unknown}

pub data Effect : Type 0 where
  -- The Lua event of that name ran.
  pre_disconnect : ℕ → Effect
  -- The request to Redis that takes the name off the list of online users.
  redis_srem : Bytes → Effect
  close_socket : ℕ → Effect

pub record World : Type 0 where
  pub heap : Heap
  pub state : ServerState
  pub log : List Effect

abbrev pub note : Effect → World → World
note e w = record w { log = w.log ++ e ∷ [] }

abbrev pub on_connection : ℕ → (Connection → Connection) → World → World
on_connection k f w = record w { heap = with_connection k f w.heap }

abbrev pub at : ℕ → World → Connection
at k w = w.heap.connections k

-- The end of `prepareShutdownConnection`. The timer is set to a millisecond.
unfoldable pub stop_connection : Connection → Connection
stop_connection con = record con {
  closed = true;
  write_started = false;
  read_started = false;
  ping_started = false;
  timer_event = record { started = true; after = pos 1_000; repeat = pos 0 };
}

unfoldable pub shutdown_connection : Connection → Connection
shutdown_connection con = record con {
  ping_started = false;
  timer_event = record con.timer_event { started = false };
  read_started = false;
  write_started = false;
}

abbrev pub connection_timeout_period : Ticks
connection_timeout_period = pos 120_000_000

abbrev pub connection_timeout_period_ident : Ticks
connection_timeout_period_ident = pos 30_000_000

unfoldable pub timeout_of : Connection → Ticks
timeout_of con = con.last_activity +ℤ elim con.protocol [
  | protocol_unknown ↦ connection_timeout_period_ident
  | _ ↦ connection_timeout_period
]

-- The connection waits for its timer alone.
pub record IsClosing (con : Connection) : Type 0 where
  pub is_closed : con.closed ≡ true
  pub no_read : con.read_started ≡ false
  pub no_write : con.write_started ≡ false
  pub no_ping : con.ping_started ≡ false

-- Nobody finds the connection any more.
abbrev pub IsGone : ℕ → Bool → Bytes → World → Type 0
IsGone k true name w = lookup name w.state.connection_map ≡ none
IsGone k false name w = member k w.state.unidentified_list ≡ false

remove_connection-lookup :
    (h : Heap) (name : Bytes) (s : ServerState)
    → lookup name (remove_connection h name s).connection_map ≡ none
unfolding remove_connection forget_connection
remove_connection-lookup h name s = by_entry (lookup name s.connection_map) refl
  where
    by_entry :
        (o : Option ℕ)
        → lookup name s.connection_map ≡ o
        → lookup name (forget_connection h name o s).connection_map ≡ none
    by_entry none e = e
    by_entry (some con) e =
        lookup-erase name name s.connection_map
        ∙ ap (λ b. if b then none else lookup name s.connection_map) (same_refl name)

removed_unidentified-member :
    (k : ℕ) (s : ServerState) → member k (removed_unidentified k s).unidentified_list ≡ false
unfolding removed_unidentified
removed_unidentified-member k s =
    member-remove k k s.unidentified_list
    ∙ ap (λ b. if b then false else member k s.unidentified_list) (same_refl k)

abbrev SameWho : Connection → Connection → Type 0
SameWho c d = (c.identified ≡ d.identified) × (c.character_name_lower ≡ d.character_name_lower)

-- `run_pre_disconnect` is the Lua event; `timer_again` is `ev_timer_again` of libev.
module _ (run_pre_disconnect : ℕ → World → World) (timer_again : Timer → Timer) where
  -- The branch for an identified connection.
  unfoldable pub say_goodbye : ℕ → World → World
  say_goodbye k w =
      let w' = note (pre_disconnect k) (run_pre_disconnect k w) in
      note (redis_srem (at k w').character_name) w'

  unfoldable pub prepare_shutdown_connection : ℕ → World → World
  unfolding stop_connection say_goodbye
  prepare_shutdown_connection k w =
      if (at k w).closed
      then w
      else on_connection k stop_connection (if (at k w).identified then say_goodbye k w else w)

  -- The branch for a connection that is closed already.
  unfoldable pub release : ℕ → World → World
  unfolding shutdown_connection
  release k w =
      let w' = on_connection k shutdown_connection w in
      let con = at k w' in
      record w' {
        state =
            if con.identified
            then remove_connection w'.heap con.character_name_lower w'.state
            else removed_unidentified k w'.state;
      }

  unfoldable pub rearm : Ticks → Connection → Connection
  rearm left con = record con {
    timer_event = timer_again (record con.timer_event { repeat = left });
  }

  unfoldable pub connection_timer_callback : Ticks → ℕ → World → World
  unfolding timeout_of
  connection_timer_callback now k w =
      let con = at k w in
      if con.closed
      then release k w
      else if con.delay_close
      then prepare_shutdown_connection k (note (close_socket k) w)
      else if ltb_ℤ (timeout_of con) now
      then note (close_socket k) (prepare_shutdown_connection k w)
      else on_connection k (rearm (timeout_of con -ℤ now)) w

  -- Preparing the shutdown of an open connection leaves it closed with no watcher but its timer,
  -- which is started, and preparing it once more changes nothing: neither the event nor the
  -- request to Redis happens twice.
  pub prepare_shutdown_connection_twice :
      (k : ℕ) (w : World)
      → (at k w).closed ≡ false
      → let w' = prepare_shutdown_connection k w in
        IsClosing (at k w')
        × ((at k w').timer_event.started ≡ true)
        × (prepare_shutdown_connection k w' ≡ w')
  unfolding prepare_shutdown_connection stop_connection
  prepare_shutdown_connection_twice k w fresh =
      let self : (k == k) ≡ true = ground arith in
      rw fresh (
        rw self (
          record { is_closed = refl; no_read = refl; no_write = refl; no_ping = refl },
          refl,
          refl,
        ))

  release-IsGone :
      (k : ℕ) (w : World) → IsGone k (at k w).identified (at k w).character_name_lower (release k w)
  unfolding release shutdown_connection
  release-IsGone k w =
      let self : (k == k) ≡ true = ground arith in
      rw self (elim (Bool-cases (at k w).identified) [
        | inl i ↦ rw i (remove_connection-lookup _ _ _)
        | inr i ↦ rw i (removed_unidentified-member k _)
      ])

  -- What `pre_disconnect` leaves of the connection that it is called for.
  abbrev pub KeepsWho : Type 0
  KeepsWho =
      (k : ℕ) (w : World)
      → ((at k (run_pre_disconnect k w)).identified ≡ (at k w).identified)
        × ((at k (run_pre_disconnect k w)).character_name_lower ≡ (at k w).character_name_lower)

  prepared :
      (k : ℕ) (w : World)
      → KeepsWho
      → (at k w).closed ≡ false
      → ((at k (prepare_shutdown_connection k w)).closed ≡ true)
        × SameWho (at k (prepare_shutdown_connection k w)) (at k w)
  unfolding prepare_shutdown_connection stop_connection say_goodbye
  prepared k w keeps fresh =
      let self : (k == k) ≡ true = ground arith in
      rw fresh (rw self (refl, by_ident (at k w).identified))
    where
      by_ident : (b : Bool) → SameWho (at k (if b then say_goodbye k w else w)) (at k w)
      by_ident true = keeps k w
      by_ident false = (refl, refl)

  released :
      (later : Ticks) (k : ℕ) (w w' : World)
      → ((at k w').closed ≡ true) × SameWho (at k w') (at k w)
      → IsGone k
          (at k w).identified
          (at k w).character_name_lower
          (connection_timer_callback later k w')
  unfolding connection_timer_callback
  released later k w w' (c, (i, n)) = rw (← i, ← n) (rw c (release-IsGone k w'))

  first_firing :
      (now : Ticks) (k : ℕ) (w : World) (d t : Bool)
      → KeepsWho
      → (at k w).closed ≡ false
      → (at k w).delay_close ≡ d
      → ltb_ℤ (timeout_of (at k w)) now ≡ t
      → (d || t) ≡ true
      → ((at k (connection_timer_callback now k w)).closed ≡ true)
        × SameWho (at k (connection_timer_callback now k w)) (at k w)
  unfolding connection_timer_callback
  first_firing now k w true t keeps fresh e f o =
      rw (fresh, e) (prepared k (note (close_socket k) w) keeps fresh)
  first_firing now k w false true keeps fresh e f o = rw (fresh, e, f) (prepared k w keeps fresh)
  first_firing now k w false false keeps fresh e f o = ground arith

  -- If the Lua event leaves the connection's name and whether it is identified, and an open
  -- connection is marked for delayed closing or has been silent for longer than its period (120
  -- seconds once it has a protocol, 30 before) when its timer fires, then the next firing, however
  -- late, has taken it out of the register of users or, before it identified itself, off the list
  -- of unidentified connections.
  pub connection_timer_callback_twice :
      (now later : Ticks) (k : ℕ) (w : World)
      → KeepsWho
      → (at k w).closed ≡ false
      → (at k w).delay_close || ltb_ℤ (timeout_of (at k w)) now ≡ true
      → IsGone k
          (at k w).identified
          (at k w).character_name_lower
          (connection_timer_callback later k (connection_timer_callback now k w))
  connection_timer_callback_twice now later k w keeps fresh due =
      released later k w (connection_timer_callback now k w) (
        first_firing now k w (at k w).delay_close (ltb_ℤ (timeout_of (at k w)) now) keeps fresh refl
          refl due)
