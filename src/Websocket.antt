-- ===== src/Websocket.antt =====
-- src/websocket.hpp and src/websocket.cpp: the websocket protocol of the server.
-- `Frame` writes a frame, `Receive` takes one from the read buffer, `Handshake` answers the
-- opening request; the other children prove.
pub mod Frame
pub mod Receive
pub mod Safety
pub mod Stream
pub mod RoundTrip
pub mod Handshake
use fserv.Prelude.{ℕ}

pub data ProtocolVersion : Type 0 where
  protocol_hybi protocol_bad protocol_incomplete protocol_unknown : ProtocolVersion

pub data WebSocketResult : Type 0 where
  ws_ok ws_error ws_incomplete ws_ping_pong ws_close : WebSocketResult

abbrev pub ws_header_size : ℕ
ws_header_size = 2

abbrev pub ws_masking_key_size : ℕ
ws_masking_key_size = 4

abbrev pub ws_opcode_mask : ℕ
ws_opcode_mask = 0x0f

abbrev pub ws_masked_mask : ℕ
ws_masked_mask = 0x80

abbrev pub ws_length_mask : ℕ
ws_length_mask = 0x7f

abbrev pub ws_single_byte_length : ℕ
ws_single_byte_length = 125

abbrev pub ws_two_byte_length : ℕ
ws_two_byte_length = 126

abbrev pub ws_eight_byte_length : ℕ
ws_eight_byte_length = 127

abbrev pub ws_opcode_text : ℕ
ws_opcode_text = 0x01

abbrev pub ws_opcode_close : ℕ
ws_opcode_close = 0x08

abbrev pub ws_opcode_ping : ℕ
ws_opcode_ping = 0x09

abbrev pub ws_opcode_pong : ℕ
ws_opcode_pong = 0x0a

abbrev pub ws_maximum_client_frame_size : ℕ
ws_maximum_client_frame_size = 0x80000
