-- ===== src/Tests/Loop.antt =====
-- src/server.cpp with command handlers that only count the messages.
use fserv.Prelude.{
  ℕ, suc, ◌≡◌, refl, true, some, List, [], ◌∷◌, ◌++◌, arith, ◌==◌, ◌||◌, if◌then◌else◌,
}
use fserv.Prelude.Bytes.{codes}
use fserv.Prelude.Int.{pos, ◌+ℤ◌, ltb_ℤ}
use fserv.Connection.{Connection, new_connection, send_raw, Timer}
use fserv.Channel.{new_channel, ct_public}
use fserv.ServerState.{new_server_state}
use fserv.Websocket.{protocol_hybi, ws_opcode_ping}
use fserv.Websocket.Frame.{send_pong}
use fserv.Websocket.RoundTrip.{MaskingKey, client_frame}
use fserv.Server.Errors.{ferr_ok}
use fserv.Server.Reading.{Handlers, read_received}
use fserv.Server.Messages.{
  IsHandlers, Sent, frames, handle_all, filled, read_received-frames, ping_stalls,
}
use fserv.Server.Writing.{SendReturn, again, sent}
use fserv.Server.Output.{Port, queues, flushes, run, IsFlowing, IsSocket, run-IsFlowing}
use fserv.Server.Closing.{
  World, at, prepare_shutdown_connection, connection_timer_callback, IsClosing, IsGone,
  prepare_shutdown_connection_twice, connection_timer_callback_twice, timeout_of,
}

abbrev counting : Handlers (Connection × ℕ)
counting = record {
  con = λ s. s.0;
  set_con = λ c s. (c, s.1);
  ident_command = λ p s. ((s.0, suc s.1), ferr_ok);
  search_command = λ p s. (s, pos 1);
  debug_command = λ p s. (s, ferr_ok);
  run_lua_event = λ e p s. ((s.0, suc s.1), ferr_ok);
  shut_down = λ s. (record (s.0) { closed = true }, s.1);
  error_message = λ code. codes "ERR";
}

counting-IsHandlers : IsHandlers counting
counting-IsHandlers = record {
  con-set_con = λ c s. refl;
  ident_keeps = λ p s. (refl, refl);
  search_keeps = λ p s. (refl, refl);
  debug_keeps = λ p s. (refl, refl);
  lua_keeps = λ e p s. (refl, refl);
}

abbrev upgraded : Connection × ℕ
upgraded = (record new_connection { protocol = protocol_hybi }, 0)

abbrev mask : MaskingKey
mask = record { k0 = 1; k1 = 2; k2 = 3; k3 = 4 }

abbrev messages : List Sent
messages =
    record { key = mask; text = codes "IDN x" } ∷ record { key = mask; text = codes "PIN" } ∷ []

read_received-frames_example :
    read_received counting (pos 8) (frames messages) upgraded
    ≡ some (handle_all counting messages (filled counting (pos 8) (frames messages) upgraded))
read_received-frames_example =
    read_received-frames counting counting-IsHandlers (pos 8) messages upgraded
      (ground arith, ground arith, (ground arith, ground arith, tt)) (ground arith) refl refl

abbrev pinged : Connection × ℕ
pinged = filled counting (pos 8) (client_frame ws_opcode_ping mask [] ++ frames messages) upgraded

ping_stalls_example :
    read_received counting (pos 8) (client_frame ws_opcode_ping mask [] ++ frames messages) upgraded
    ≡ some (
        counting.set_con
          (record (send_raw (send_pong []) (counting.con pinged)).0 {
            read_buffer = frames messages;
          })
          pinged)
ping_stalls_example =
    ping_stalls counting counting-IsHandlers (pos 8) mask [] (frames messages) upgraded
      (ground arith) refl refl

-- The socket takes a byte of each call.
abbrev slow : ℕ → ℕ → SendReturn
slow i len = if len == 0 then again else sent 1

abbrev close_it : Connection → Connection
close_it con = record con { closed = true }

abbrev idle : Port
idle = record { con = new_connection; accepted = []; delivered = [] }

idle-IsFlowing : IsFlowing idle
idle-IsFlowing = record { rest = []; stream = refl; open_rest = λ e. (refl, refl) }

slow-IsSocket : IsSocket slow
slow-IsSocket i len n e = ground arith

run-IsFlowing_example :
    IsFlowing (run close_it (queues (129 ∷ 1 ∷ 65 ∷ []) ∷ flushes slow ∷ []) idle)
run-IsFlowing_example =
    run-IsFlowing close_it (λ c. refl) (queues (129 ∷ 1 ∷ 65 ∷ []) ∷ flushes slow ∷ []) idle
      (tt, (slow-IsSocket, tt)) idle-IsFlowing

abbrev world : World
world = record {
  heap = record {
    channels = λ c. new_channel [] ct_public;
    connections =
        λ k. record new_connection { identified = true; character_name_lower = codes "ann" };
  };
  state = record new_server_state {
    connection_map = (codes "ann", 1) ∷ [];
    user_count = pos 1;
    max_user_count = pos 1;
  };
  log = [];
}

abbrev no_event : ℕ → World → World
no_event k w = w

abbrev timer_again : Timer → Timer
timer_again t = record t { started = true }

prepare_shutdown_connection_twice_example :
    IsClosing (at 1 (prepare_shutdown_connection no_event timer_again 1 world))
    × ((at 1 (prepare_shutdown_connection no_event timer_again 1 world)).timer_event.started ≡ true)
    × (prepare_shutdown_connection no_event timer_again 1
          (prepare_shutdown_connection no_event timer_again 1 world)
        ≡ prepare_shutdown_connection no_event timer_again 1 world)
prepare_shutdown_connection_twice_example =
    prepare_shutdown_connection_twice no_event timer_again 1 world refl

late : (at 1 world).delay_close || ltb_ℤ (timeout_of (at 1 world)) (pos 31_000_000) ≡ true
unfolding timeout_of ◌+ℤ◌
late = refl

connection_timer_callback_twice_example : IsGone 1 true (codes "ann") (
    connection_timer_callback no_event timer_again
      (pos 40_000_000)
      1
      (connection_timer_callback no_event timer_again (pos 31_000_000) 1 world))
connection_timer_callback_twice_example =
    connection_timer_callback_twice no_event timer_again (pos 31_000_000) (pos 40_000_000) 1 world
      (λ k w. (refl, refl)) refl late
