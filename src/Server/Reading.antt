-- ===== src/Server/Reading.antt =====
-- `Server::connectionReadCallback` of src/server.cpp: its guards, the loop over the frames in the
-- read buffer and the dispatch of a message to its handler.
use fserv.Prelude.{
  Bool, ℕ, zero, suc, not, ◌||◌, Option, some, [], ◌++◌, ltb, ◌==◌, if◌then◌else◌, length, take,
  drop, is_empty, ◌>>=◌,
}
use fserv.Prelude.Bytes.{Bytes, codes, eq_bytes}
use fserv.Prelude.Int.{ℤ, eq_ℤ}
use fserv.Connection.{Connection, from_string, send, set_delay_close}
use fserv.Websocket.Receive.{receive}
use fserv.Websocket.{
  ProtocolVersion, protocol_hybi, WebSocketResult, ws_ok, ws_error, ws_incomplete, ws_ping_pong,
  ws_close,
}
use fserv.Server.Errors.{ferr_ok, ferr_requires_ident, ferr_fatal_internal}

-- What the callback calls, over a server state `S` that holds the connection: the commands of
-- src/native_command.cpp, the Lua event of the same source, the shutdown of the connection with
-- the `close` of its socket, and the message of an error code.
pub record Handlers (S : Type 0) : Type 0 where
  pub con : S → Connection
  pub set_con : Connection → S → S
  pub ident_command : Bytes → S → S × ℤ
  pub search_command : Bytes → S → S × ℤ
  pub debug_command : Bytes → S → S × ℤ
  pub run_lua_event : Bytes → Bytes → S → S × ℤ
  pub shut_down : S → S
  pub error_message : ℤ → Bytes

-- `recv`: nothing yet, an error or the end of the stream, or bytes.
pub data RecvReturn : Type 0 where
  recv_again recv_failed : RecvReturn
  recv_bytes : Bytes → RecvReturn

abbrev pub max_connection_read_buffer : ℕ
max_connection_read_buffer = 0x100000

module _ {S : Type 0} (h : Handlers S) where
  abbrev pub on_con : (Connection → Connection) → S → S
  on_con f s = h.set_con (f (h.con s)) s

  unfoldable pub send_error : ℤ → S → S
  send_error code = on_con (λ c. (send (from_string (h.error_message code)) c).0)

  unfoldable pub ident_or_close : Bytes → S → S × ℤ
  ident_or_close payload s =
      let (s', code) = h.ident_command payload s in
      (if eq_ℤ code ferr_ok then s' else on_con set_delay_close s', code)

  -- The chain of comparisons with the command.
  unfoldable pub run_command : Bytes → Bytes → S → S × ℤ
  unfolding ident_or_close
  run_command command payload s =
      if eq_bytes command (codes "PIN")
      then (s, ferr_ok)
      else if eq_bytes command (codes "IDN")
      then ident_or_close payload s
      else if eq_bytes command (codes "FKS")
      then h.search_command payload s
      else if eq_bytes command (codes "ZZZ")
      then h.debug_command payload s
      else if eq_bytes command (codes "VAR")
      then h.run_lua_event command payload s
      else if not (h.con s).identified
      then (s, ferr_requires_ident)
      else h.run_lua_event command payload s

  -- What the error code asks for.
  unfoldable pub settle : S × ℤ → S
  unfolding send_error
  settle (s, code) =
      if eq_ℤ code ferr_requires_ident || eq_ℤ code ferr_fatal_internal
      then send_error code (on_con set_delay_close s)
      else if not (eq_ℤ code ferr_ok)
      then send_error code s
      else s

  -- A message of at least three bytes.
  unfoldable pub handle_message : Bytes → S → S
  handle_message message s =
      let payload : Bytes = if ltb 4 (length message) then drop 4 message else [] in
      settle (run_command (take 3 message) payload s)

  -- The switch on the protocol; `ret` and `message` keep their values where it does nothing.
  unfoldable pub receive_from :
      ProtocolVersion → WebSocketResult → Bytes → S → Option (WebSocketResult × Bytes × S)
  receive_from protocol_hybi ret message s = do
    r ← receive (h.con s) (h.con s).read_buffer message
    let c = r.con
    let rest = r.input
    some (r.result, r.output, h.set_con (record c { read_buffer = rest }) s)
  receive_from _ ret message s = some (ret, message, s)

  -- The branches on the result of a round; `next` goes on with the loop.
  unfoldable pub after_frame : (Bytes → S → Option S) → WebSocketResult × Bytes × S → Option S
  after_frame next (ws_incomplete, message, s) = some s
  after_frame next (ws_ping_pong, message, s) = some s
  after_frame next (ws_error, message, s) = some (h.shut_down s)
  after_frame next (ws_close, message, s) = some (h.shut_down s)
  after_frame next (ws_ok, message, s) =
      if ltb (length message) 3
      then some (h.shut_down s)
      else next message (handle_message message s)

  -- `while (--repeat && con->readBuffer.size())`, on `repeat`.
  unfoldable pub read_frames : ℕ → WebSocketResult → Bytes → S → Option S
  unfolding receive_from after_frame
  read_frames zero ret message s = some s
  read_frames (suc repeat) ret message s =
      let round : Option S =
        receive_from (h.con s).protocol ret message s
        >>= after_frame (λ message' s'. read_frames repeat ws_ok message' s') in
      if repeat == 0 || is_empty (h.con s).read_buffer then some s else round

  abbrev pub read_repeat : ℕ
  read_repeat = 10

  -- The bytes that `recv` gave are appended, then the loop runs.
  unfoldable pub read_received : ℤ → Bytes → S → Option S
  read_received now received s =
      read_frames read_repeat ws_error []
        (on_con (λ c. record c { last_activity = now; read_buffer = c.read_buffer ++ received }) s)

  -- The buffer is too large, which shuts the connection down and reads on.
  unfoldable pub check_buffer : S → S
  check_buffer s =
      if ltb max_connection_read_buffer (length (h.con s).read_buffer) then h.shut_down s else s

  -- What `recv` answered.
  unfoldable pub after_recv : ℤ → RecvReturn → S → Option S
  unfolding read_received
  after_recv now recv_again s = some s
  after_recv now recv_failed s = some (h.shut_down s)
  after_recv now (recv_bytes bytes) s = read_received now bytes s

  -- The whole callback; `error` and `readable` are the event's flags.
  unfoldable pub connection_read_callback : Bool → Bool → ℤ → RecvReturn → S → Option S
  unfolding check_buffer after_recv
  connection_read_callback error readable now answer s =
      if (h.con s).closed
      then some s
      else if error
      then some (h.shut_down s)
      else if readable
      then after_recv now answer (check_buffer s)
      else some s
