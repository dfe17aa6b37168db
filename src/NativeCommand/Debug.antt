-- ===== src/NativeCommand/Debug.antt =====
-- `DebugCommand` of src/native_command.cpp, with what it calls: a connection's own Lua state, of
-- src/connection.cpp, and of src/server.cpp the global state, the chat logger and the shutdown.
use fserv.Prelude.{ℕ, Bool, true, false, not, Option, none, some, [], ◌++◌, if◌then◌else◌}
use fserv.Prelude.Bytes.{Bytes, codes, eq_bytes, c_str}
use fserv.Prelude.Int.{ℤ, eq_ℤ}
use fserv.Json.{Jansson, string_at}
use fserv.Connection.{Connection}
use fserv.LuaConstants.{send_debug_reply}
use fserv.Server.Errors.{ferr_ok, ferr_bad_syntax, ferr_not_admin, ferr_lua}

-- A number stands for a Lua state. The event loop runs until `ev_unloop`.
pub record Process : Type 0 where
  pub connection : Connection
  pub global_lua : ℕ
  pub chat_logger : Bool
  pub profiler : Bool
  pub event_loop : Bool

-- What `loadLuaIntoState` of a new state gives: the code, and the message of an error.
pub record Loading : Type 0 where
  pub new_state : ℕ
  pub code : ℤ
  pub output : Bytes

abbrev has_state : Option ℕ → Bool
has_state none = false
has_state (some l) = true

-- `isolateLua` and `reloadIsolation`: a state that did not load is closed.
unfoldable pub isolate_lua : Loading → Connection → Connection
isolate_lua l con = if eq_ℤ l.code ferr_ok then record con { debug_l = some l.new_state } else con

unfoldable pub deisolate_lua : Connection → Connection
deisolate_lua con = record con { debug_l = none }

unfoldable pub reload_lua_state : Loading → Process → Process
reload_lua_state l p = if eq_ℤ l.code ferr_ok then record p { global_lua = l.new_state } else p

-- One of three replies to a loading.
abbrev loading_reply : Loading → Bytes → (Bytes → Bytes) → Bytes → Bytes
loading_reply l done failed unknown =
    if eq_ℤ l.code ferr_ok then done else if eq_ℤ l.code ferr_lua then failed l.output else unknown

abbrev isolate_reply : Loading → Bytes
isolate_reply l =
    loading_reply l (codes "Your connection is now running an isolated Lua state.")
      (λ message.
        codes "Failed to move your connection into an isolated Lua state. Lua returned the error: "
        ++ message)
      (codes
        "Failed to move your connection into an isolated Lua state. An unknown error happened.")

abbrev reload_isolation_reply : Loading → Bytes
reload_isolation_reply l =
    loading_reply l
      (codes "The isolated Lua state for your connection is now running the latest on disk Lua.")
      (λ message.
        codes
          "It was not possible to reload the isolated Lua state for your connection because of a Lua error. Lua returned the error: "
        ++ (message ++ codes "\nYou are still running the previous version."))
      (codes
        "It was not possible to reload the isolated Lua state for your connection because of an unknown error.\nYou are still running the previous version.")

abbrev reload_reply : Loading → Bytes
reload_reply l =
    loading_reply l (codes "The global Lua state has been reloaded.")
      (λ message.
        codes
          "It was not possible to reload the global Lua state because of a Lua error. Lua returned the error: "
        ++ (message ++ codes "\nEveryone is still running the previous version."))
      (codes
        "It was not possible to reload the global Lua state because of an unknown error.\nEveryone is still running the previous version.")

abbrev debug_help : Bytes
debug_help =
    codes
      "Possible commands are: help, status, isolate, deisolate, reload, halt\nhelp: Prints this message.\nstatus: Prints information about your connection, including if you are in an isolated Lua state.\nisolate: Attempts to place your connection in an isolated Lua state. Returns a detailed error message upon failure.\ndeisolate: Removes your connection from an isolated Lua state if you are in one. Returns a detailed error message upon failure.\nreload: Reloads the Lua code for a state. In a global state you are required to confirm reloading. Returns a detailed error message upon failure.\nhalt: This will immediately bring the server down after saving important data."

module _ {J : Type 0} (j : Jansson J) (l : Loading) where
  abbrev reply : Bytes → Process → Process
  reply message p = record p { connection = send_debug_reply j message p.connection }

  unfoldable pub debug_isolate : Process → Process
  unfolding isolate_lua
  debug_isolate p =
      if has_state p.connection.debug_l
      then reply (codes "Your connection is already running an isolated Lua state.") p
      else reply (isolate_reply l) (record p { connection = isolate_lua l p.connection })

  unfoldable pub debug_deisolate : Process → Process
  unfolding deisolate_lua
  debug_deisolate p =
      if not (has_state p.connection.debug_l)
      then reply (codes "Your connection is not currently running an isolated Lua state.") p
      else reply (codes "Your connection has been returned to the global Lua state.")
          (record p { connection = deisolate_lua p.connection })

  unfoldable pub debug_status : Process → Process
  debug_status p =
      reply
        (codes "Status: "
          ++ (if has_state p.connection.debug_l then codes "Running isolated. " else []))
        p

  -- The global state wants the argument "yes".
  unfoldable pub reload_global : Option Bytes → Process → Process × ℤ
  unfolding reload_lua_state
  reload_global none p = (p, ferr_bad_syntax)
  reload_global (some arg) p =
      if eq_bytes arg (codes "yes")
      then (reply (reload_reply l) (reload_lua_state l p), ferr_ok)
      else (
        reply
            (codes
              "You must confirm reloading the global Lua state by providing the argument of \"yes\".")
            p,
        ferr_ok,
      )

  unfoldable pub debug_reload : J → Process → Process × ℤ
  unfolding reload_global isolate_lua
  debug_reload top p =
      if has_state p.connection.debug_l
      then (
        reply (reload_isolation_reply l) (record p { connection = isolate_lua l p.connection }),
        ferr_ok,
      )
      else reload_global (string_at j (codes "arg") top) p

  -- `loggerStart` and `loggerStop` do nothing where the logger runs or does not run already.
  unfoldable pub run_debug : Bytes → J → Process → Process × ℤ
  run_debug command top p =
      if eq_bytes command (codes "isolate")
      then (debug_isolate p, ferr_ok)
      else if eq_bytes command (codes "deisolate")
      then (debug_deisolate p, ferr_ok)
      else if eq_bytes command (codes "profile-start")
      then (record p { profiler = true }, ferr_ok)
      else if eq_bytes command (codes "profile-stop")
      then (record p { profiler = false }, ferr_ok)
      else if eq_bytes command (codes "logger-start")
      then (record p { chat_logger = true }, ferr_ok)
      else if eq_bytes command (codes "logger-stop")
      then (record p { chat_logger = false }, ferr_ok)
      else if eq_bytes command (codes "status")
      then (debug_status p, ferr_ok)
      else if eq_bytes command (codes "reload")
      then debug_reload top p
      else if eq_bytes command (codes "halt")
      then (record p { event_loop = false }, ferr_ok)
      else if eq_bytes command (codes "help")
      then (reply debug_help p, ferr_ok)
      else (reply (codes "Unknown debug command. Try 'help'?") p, ferr_ok)

  -- The payload with its command, or what is no command.
  unfoldable pub debug_payload : Option J → Process → Process × ℤ
  unfolding run_debug
  debug_payload none p = (p, ferr_bad_syntax)
  debug_payload (some top) p = elim (string_at j (codes "command") top) [
    | none ↦ (p, ferr_bad_syntax)
    | some command ↦ run_debug command top p
  ]

  unfoldable pub debug_command : Bytes → Process → Process × ℤ
  unfolding debug_payload
  debug_command payload p =
      if not p.connection.admin
      then (p, ferr_not_admin)
      else debug_payload (j.json_loads (c_str payload)) p
