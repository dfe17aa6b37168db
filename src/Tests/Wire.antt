-- ===== src/Tests/Wire.antt =====
-- src/websocket.cpp at concrete frames and requests.
use fserv.Prelude.{
  ℕ, ◌≡◌, ◌≢◌, refl, inl, inr, true, false, none, some, List, [], ◌∷◌, ◌++◌, arith, length,
}
use fserv.Prelude.Bytes.{Bytes, codes, eq_bytes, lowered, to_lower, c_str}
use fserv.Connection.{new_connection}
use fserv.Prelude.Int.{pos}
use fserv.Server.Reading.{recv_bytes}
use fserv.Server.Arriving.{arrived, handshake_callback, handshake_callback-upgrade}
use fserv.Websocket.{ws_opcode_text, ws_opcode_ping, protocol_hybi, protocol_bad}
use fserv.Websocket.Frame.{send_message}
use fserv.Websocket.Receive.{receive}
use fserv.Websocket.RoundTrip.{
  MaskingKey, client_frame, server_frame, answer, send_message-server_frame, receive-client_frame,
}
use fserv.Websocket.Safety.{IsReceipt, opcode_of, size_of, hint_of, payload_of, receive-IsReceipt}
use fserv.Websocket.Stream.{Extends, receive-Extends}
use fserv.Websocket.Handshake.{
  parse_headers, switching, ws_magical_guid, accept, find, starts_with, colon,
}
use fserv.Websocket.Handshake.Requests.{
  Header, IsHeaders, request, parse_headers_total, accept_upgrade, accept_missing, real_ip,
  header_value,
}
use fserv.Websocket.Handshake.Find.{IsFree}
use fserv.Prelude.Maps.{member, nat_eq}

abbrev key : MaskingKey
key = record { k0 = 17; k1 = 34; k2 = 51; k3 = 200 }

-- A ping of three bytes and the start of another frame.
abbrev ping_and_more : Bytes
ping_and_more = client_frame ws_opcode_ping key (codes "PIN") ++ 129 ∷ []

receive-client_frame_example :
    receive new_connection (client_frame ws_opcode_ping key (codes "PIN") ++ 129 ∷ []) []
    ≡ some (answer new_connection [] ws_opcode_ping (codes "PIN") (129 ∷ []))
receive-client_frame_example =
    receive-client_frame new_connection [] key (codes "PIN") (129 ∷ []) ws_opcode_ping
      (inr (inl refl)) (ground arith)

receive-IsReceipt_example :
    IsReceipt new_connection ping_and_more
      (codes "old")
      (opcode_of ping_and_more)
      (size_of (hint_of ping_and_more))
      (payload_of (hint_of ping_and_more) ping_and_more)
      (receive new_connection ping_and_more (codes "old"))
receive-IsReceipt_example = receive-IsReceipt new_connection ping_and_more (codes "old")

receive-Extends_example :
    Extends
      (137 ∷ [])
      (receive new_connection (129 ∷ 129 ∷ 1 ∷ 2 ∷ 3 ∷ 4 ∷ 81 ∷ []) [])
      (receive new_connection ((129 ∷ 129 ∷ 1 ∷ 2 ∷ 3 ∷ 4 ∷ 81 ∷ []) ++ 137 ∷ []) [])
receive-Extends_example =
    receive-Extends new_connection (129 ∷ 129 ∷ 1 ∷ 2 ∷ 3 ∷ 4 ∷ 81 ∷ []) (137 ∷ []) []

send_message-server_frame_example :
    send_message ws_opcode_text (codes "NLN") ≡ server_frame ws_opcode_text (codes "NLN")
send_message-server_frame_example =
    send_message-server_frame ws_opcode_text (codes "NLN") (ground arith) (ground arith)

-- Stand-ins of the hash and the encoding.
abbrev hash : Bytes → Bytes
hash s = 7 ∷ length s ∷ []

abbrev encode : Bytes → Bytes
encode s = 65 ∷ s

abbrev headers : List Header
headers =
    record { name = codes "Sec-WebSocket-Version"; value = codes "13" }
    ∷ record { name = codes "Sec-WebSocket-Key"; value = codes "abc" }
    ∷ record { name = codes "X-Real-IP"; value = codes "1.2.3.4" }
    ∷ []

abbrev start : Bytes
start = codes "GET / HTTP/1.1"

parse_headers_total_example : parse_headers 3 (13 ∷ 10 ∷ []) [] ≢ none
parse_headers_total_example = parse_headers_total 3 (13 ∷ 10 ∷ []) [] (ground arith)

IsFree-of_test : (c : ℕ) (s : Bytes) → member c s ≡ false → IsFree c s
unfolding member
IsFree-of_test c [] h = tt
IsFree-of_test c (b ∷ s) h = (ground arith, IsFree-of_test c s (ground arith))

headers-IsHeaders : IsHeaders headers
unfolding member find starts_with
headers-IsHeaders = (
  record {
    no_colon = IsFree-of_test 58 (codes "Sec-WebSocket-Version") refl;
    name_line = IsFree-of_test 13 (codes "Sec-WebSocket-Version") refl;
    value_line = IsFree-of_test 13 (codes "13") refl;
  },
  (
    record {
      no_colon = IsFree-of_test 58 (codes "Sec-WebSocket-Key") refl;
      name_line = IsFree-of_test 13 (codes "Sec-WebSocket-Key") refl;
      value_line = IsFree-of_test 13 (codes "abc") refl;
    },
    (
      record {
        no_colon = IsFree-of_test 58 (codes "X-Real-IP") refl;
        name_line = IsFree-of_test 13 (codes "X-Real-IP") refl;
        value_line = IsFree-of_test 13 (codes "1.2.3.4") refl;
      },
      tt,
    ),
  ),
)

start-IsFree : IsFree 13 start
unfolding member
start-IsFree = IsFree-of_test 13 start refl

start-colon : find colon start ≡ none
unfolding find starts_with
start-colon = refl

accept_upgrade_example :
    accept hash encode (request start headers) [] (codes "9.9.9.9")
    ≡ some (record {
      version = protocol_hybi;
      output = switching (encode (hash (codes "abc" ++ ws_magical_guid)));
      ip = real_ip headers (codes "9.9.9.9");
    })
unfolding header_value eq_bytes lowered to_lower c_str
accept_upgrade_example =
    accept_upgrade hash encode start headers start-IsFree start-colon headers-IsHeaders []
      (codes "9.9.9.9") (codes "13") (codes "abc") refl refl refl refl (ground arith) (ground arith)

accept_missing_example :
    accept hash encode (request start []) [] (codes "9.9.9.9")
    ≡ some (record { version = protocol_bad; output = []; ip = real_ip [] (codes "9.9.9.9") })
unfolding header_value
accept_missing_example =
    accept_missing hash encode start [] start-IsFree start-colon tt [] (codes "9.9.9.9") (inl refl)

abbrev request_bytes : Bytes
request_bytes = request start headers

handshake_callback-upgrade_example :
    handshake_callback hash encode
      (λ con. con)
      (λ address. false)
      (λ s. none)
      false
      true
      (pos 5)
      (recv_bytes request_bytes)
      (arrived 77)
    ≡ some (record (arrived 77) {
      last_activity = pos 5;
      read_buffer = [];
      protocol = protocol_hybi;
      write_queue = switching (encode (hash (codes "abc" ++ ws_magical_guid))) ∷ [];
      read_started = true;
      write_started = true;
    })
unfolding arrived header_value eq_bytes lowered to_lower c_str
handshake_callback-upgrade_example =
    handshake_callback-upgrade hash encode (λ con. con) (λ address. false) (λ s. none) (pos 5)
      request_bytes (arrived 77) start headers (codes "13") (codes "abc") refl refl refl
      start-IsFree start-colon headers-IsHeaders refl refl refl refl (ground arith) (ground arith)
      refl
