-- ===== src/Websocket/Frame.antt =====
-- `Hybi::sendMessage`, `sendText` and `sendPong` of src/websocket.cpp.
use Prim.Native.Nat.{bit_and, bit_or}
use fserv.Prelude.{ℕ, ◌-◌, ◌*◌, ◌/◌, ◌%◌, ◌^◌, [], ◌∷◌, ◌++◌, leb, if◌then◌else◌, length, take}
use fserv.Prelude.Bytes.{Bytes}
use fserv.Websocket.{
  ws_single_byte_length, ws_two_byte_length, ws_eight_byte_length, ws_opcode_text, ws_opcode_pong,
}

-- `(qlength >> 8 * (7 - i)) & 0xFF`, as an unsigned char.
abbrev length_piece : ℕ → ℕ → ℕ
length_piece qlength i = bit_and (qlength / 2 ^ (8 * (7 - i))) 0xff % 256

-- The length bytes of the header; `length` is an unsigned int.
unfoldable pub length_bytes : ℕ → Bytes
length_bytes n =
    if leb n ws_single_byte_length
    then n % 256 ∷ []
    else if leb n 0xffff
    then ws_two_byte_length ∷ bit_and n 0xff00 / 2 ^ 8 ∷ bit_and n 0xff ∷ []
    else ws_eight_byte_length
      ∷ length_piece n 0
      ∷ length_piece n 1
      ∷ length_piece n 2
      ∷ length_piece n 3
      ∷ length_piece n 4
      ∷ length_piece n 5
      ∷ length_piece n 6
      ∷ length_piece n 7
      ∷ []

unfoldable pub send_message : ℕ → Bytes → Bytes
send_message opcode input =
    let n = length input % 2 ^ 32 in (bit_or 0x80 opcode % 256) ∷ (length_bytes n ++ take n input)

unfoldable pub send_text : Bytes → Bytes
send_text input = send_message ws_opcode_text input

unfoldable pub send_pong : Bytes → Bytes
send_pong input = send_message ws_opcode_pong input
