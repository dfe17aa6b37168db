-- ===== src/Server/Events.antt =====
-- src/server.cpp: the callbacks that do not read a client's connection. They run Lua, whose events
-- are an interface: a table, a name in it, the connection and the value that is passed.
pub mod Rtb
pub mod Replies
use fserv.Prelude.{
  ℕ, zero, suc, Bool, true, false, not, ◌&&◌, Option, none, some, List, [], ◌++◌, ◌==◌, ltb,
  if◌then◌else◌, length, take, drop, is_empty,
}
use fserv.Prelude.Bytes.{Bytes, codes, eq_bytes, c_str}
use fserv.Prelude.Int.{ℤ, pos, eq_ℤ, ltb_ℤ, ◌+ℤ◌}
use fserv.Json.{Jansson}
use fserv.Connection.{Connection, Ticks, from_string, send, set_delay_close}
use fserv.Login.{LoginReply, Queues, get_reply}
use fserv.LuaConstants.{send_error, send_error_message}
use fserv.NativeCommand.{Machine, con_of, change}
use fserv.Server.Errors.{
  ferr_ok, ferr_bad_syntax, ferr_unknown_command, ferr_lua, ferr_login_timed_out,
  ferr_fatal_internal,
}

-- `lua_pcall`: an error with its message, or the number that is returned.
pub data LuaReturn : Type 0 where
  lua_failed : Bytes → LuaReturn
  lua_returned : ℤ → LuaReturn

-- The Lua states over the server's own state: the state to run in is the connection's, or `none`
-- for the global one. The values that are passed hold the connection, if there is one, and a JSON
-- value.
pub record Lua (J : Type 0) : Type 0 where
  pub is_function : Option ℕ → Bytes → Bytes → Machine → Bool
  pub pcall : Option ℕ → Bytes → Bytes → Option ℕ → J → Machine → Machine × LuaReturn

-- `luaTimeHook`: whether the event that runs is aborted.
unfoldable pub lua_time_hook : Bool → Bool → Ticks → Ticks → Ticks → Ticks → Bool
lua_time_hook lua_can_timeout lua_in_timeout lua_timeout lua_repeat_timeout lua_timer now =
    let timeout = if lua_in_timeout then lua_repeat_timeout else lua_timeout in
    lua_can_timeout && ltb_ℤ (lua_timer +ℤ timeout) now

-- `ev_timer_again` starts a timer that repeats.
unfoldable pub ping_callback : ℕ → Machine → Machine
ping_callback k =
    change k (λ con. record (send (from_string (codes "PIN")) con).0 { ping_started = true })

module _ {J : Type 0} (j : Jansson J) (lua : Lua J) where
  unfoldable pub ident_returned : ℕ → Machine × LuaReturn → Machine × ℤ
  ident_returned k (m, lua_failed message) = (m, ferr_lua)
  ident_returned k (m, lua_returned ret) =
      (change k (λ con. record con { ping_started = true }) m, ret)

  unfoldable pub run_ident : ℕ → Option J → Machine → Machine × ℤ
  unfolding ident_returned
  run_ident k none m = (m, ferr_fatal_internal)
  run_ident k (some n) m =
      ident_returned k (lua.pcall none (codes "event") (codes "ident_callback") (some k) n m)

  unfoldable pub process_login : ℕ → Bytes → Bool → Machine → Machine × ℤ
  unfolding run_ident
  process_login k message success m =
      if not success
      then (m, ferr_login_timed_out)
      else run_ident k (j.json_loads (c_str message)) m

  -- The answer to a reply by its code.
  unfoldable pub answer_login : ℕ → Machine × ℤ → Machine
  answer_login k (m, code) =
      if not (eq_ℤ code ferr_ok)
      then change k (λ con. set_delay_close (send_error j code con)) m
      else m

  unfoldable pub handle_reply : LoginReply → Machine → Machine
  unfolding process_login answer_login
  handle_reply r m =
      let k = r.connection in
      if not (con_of k m).closed then answer_login k (process_login k r.message r.success m) else m

  -- A round of the loop of `processWakeupCallback`, with the reply that was taken.
  unfoldable pub next_reply : (Machine → Machine) → Machine → Queues × Option LoginReply → Machine
  unfolding handle_reply
  next_reply loop m (q, none) = m
  next_reply loop m (q, some r) = loop (handle_reply r (record m { login = q }))

  -- The loop, on fuel.
  unfoldable pub process_wakeup_callback : ℕ → Machine → Machine
  unfolding next_reply
  process_wakeup_callback zero m = m
  process_wakeup_callback (suc fuel) m =
      next_reply (process_wakeup_callback fuel) m (get_reply m.login)

  -- An empty payload is an empty object.
  unfoldable pub event_root : Bytes → Option J → Option J
  event_root payload (some root) = some root
  event_root payload none = if length payload == 0 then some (j.json_object []) else none

  unfoldable pub event_returned : ℕ → Machine × LuaReturn → Machine × ℤ
  event_returned k (m, lua_failed message) =
      (change k (send_error_message j ferr_lua message) m, ferr_lua)
  event_returned k (m, lua_returned returncode) = (m, returncode)

  unfoldable pub run_event : ℕ → Bytes → Option J → Machine → Machine × ℤ
  unfolding event_returned
  run_event k event none m = (m, ferr_bad_syntax)
  run_event k event (some root) m =
      let l = (con_of k m).debug_l in
      if not (lua.is_function l (codes "event") (c_str event) m)
      then (m, ferr_unknown_command)
      else event_returned k (lua.pcall l (codes "event") (c_str event) (some k) root m)

  unfoldable pub run_lua_event : ℕ → Bytes → Bytes → Machine → Machine × ℤ
  unfolding run_event event_root
  run_lua_event k event payload m =
      run_event k event (event_root payload (j.json_loads (c_str payload))) m

  unfoldable pub run_rtb : Bytes → Option J → Machine → Machine
  run_rtb event none m = m
  run_rtb event (some root) m =
      if not (lua.is_function none (codes "rtb") (c_str event) m)
      then m
      else (lua.pcall none (codes "rtb") (c_str event) none root m).0

  unfoldable pub run_lua_rtb : Bytes → Bytes → Machine → Machine
  unfolding run_rtb
  run_lua_rtb event payload m = run_rtb event (j.json_loads (c_str payload)) m

  -- `datagram` is what the socket has, of which `recvfrom` takes 1500 bytes, and nothing for an
  -- error. `source` and `rtb_addr_allow` are addresses as they stand in memory.
  unfoldable pub rtb_callback : (Bytes → Bytes) → Bytes → ℕ → ℕ → Bytes → Machine → Machine
  rtb_callback md5_string rtbsecret rtb_addr_allow source datagram m =
      let buffer = take 1500 datagram in
      let payload = drop 32 buffer in
      let mac = take 32 buffer in
      let hash = md5_string (rtbsecret ++ payload) in
      if ltb (length buffer) 37
      then m
      else if not (source == rtb_addr_allow) && not (source == 0x7f000001)
      then m
      else if not (eq_bytes mac hash)
      then m
      else run_lua_rtb (take 3 payload) (drop 3 payload) m
