-- ===== src/NativeCommand.antt =====
-- src/native_command.cpp: the commands that are not Lua events. Here is `IdentCommand`; `Search`
-- is `SearchCommand` and `Debug` is `DebugCommand`.
pub mod Ident
pub mod Search
pub mod Debug
use fserv.Prelude.{
  ℕ, Bool, true, false, ◌||◌, Option, none, some, List, [], ◌∷◌, ◌>>=◌, if◌then◌else◌, length,
}
use fserv.Prelude.Bytes.{Bytes, codes, eq_bytes, c_str}
use fserv.Prelude.Int.{ℤ, pos, leb_ℤ}
use fserv.Json.{Jansson, string_at}
use fserv.Connection.{Connection}
use fserv.Login.{LoginRequest, Queues, Timespec, add_request}
use fserv.Server.Closing.{World, on_connection, at}
use fserv.Server.Errors.{
  ferr_ok, ferr_bad_syntax, ferr_server_full, ferr_already_ident, ferr_unknown_auth_method,
  ferr_no_login_slot,
}

-- The main thread's state, and the queues to the login thread.
pub record Machine : Type 0 where
  pub world : World
  pub login : Queues

abbrev pub con_of : ℕ → Machine → Connection
con_of k m = at k m.world

abbrev pub change : ℕ → (Connection → Connection) → Machine → Machine
change k f m = record m { world = on_connection k f m.world }

-- Behind the parsing.
unfoldable pub queue_login :
    (Timespec → Bool) → Timespec → ℤ × Option LoginRequest → Machine → Machine × ℤ
queue_login timed_lock clock (error, none) m = (m, error)
queue_login timed_lock clock (error, some r) m =
    let (q, added) = add_request timed_lock clock r m.login in
    (record m { login = q }, if added then ferr_ok else ferr_no_login_slot)

module _ {J : Type 0} (j : Jansson J) where
  -- The strings that a ticket needs, or the jump to `fail`.
  unfoldable pub ticket_request : ℕ → J → Option LoginRequest
  ticket_request k top = do
    account ← string_at j (codes "account") top
    ticket ← string_at j (codes "ticket") top
    character ← string_at j (codes "character") top
    cname ← string_at j (codes "cname") top
    cversion ← string_at j (codes "cversion") top
    some (record {
      connection = k;
      character_name = character;
      account = account;
      ticket = ticket;
      client_name = cname;
      client_version = cversion;
    })

  -- Whether the method is a string, and which.
  unfoldable pub read_method : ℕ → J → Option Bytes → ℤ × Option LoginRequest
  read_method k top none = (ferr_bad_syntax, none)
  read_method k top (some method) =
      if eq_bytes method (codes "ticket")
      then (ferr_bad_syntax, ticket_request k top)
      else (ferr_unknown_auth_method, none)

  -- The payload as a request, or the error.
  unfoldable pub read_ident : ℕ → Option J → ℤ × Option LoginRequest
  unfolding read_method
  read_ident k none = (ferr_bad_syntax, none)
  read_ident k (some top) = read_method k top (string_at j (codes "method") top)

  module _ (max_users : ℤ) (timed_lock : Timespec → Bool) where
    unfoldable pub ident_command : Timespec → ℕ → Bytes → Machine → Machine × ℤ
    ident_command clock k payload m =
        let con = con_of k m in
        let m' = change k (λ c. record c { auth_started = true }) m in
        let users = pos (length m.world.state.connection_map) in
        if con.identified || con.auth_started
        then (m, ferr_already_ident)
        else if leb_ℤ max_users users
        then (m', ferr_server_full)
        else queue_login timed_lock clock (read_ident k (j.json_loads (c_str payload))) m'
