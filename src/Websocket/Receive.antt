-- ===== src/Websocket/Receive.antt =====
-- `Hybi::receive` of src/websocket.cpp. The input and the output are string references, and
-- the connection gets the answer to a ping. A read outside the buffer is `none`.
use Prim.Native.Nat.{bit_and, bit_or, bit_xor}
use fserv.Prelude.{
  ℕ, zero, suc, ◌+◌, ◌*◌, ◌%◌, ◌^◌, Bool, not, ◌||◌, Option, some, [], ◌∷◌, ◌++◌, ltb, ◌==◌,
  if◌then◌else◌, length, drop, get_elem?, ◌>>=◌,
}
use fserv.Prelude.Bytes.{Bytes}
use fserv.Connection.{Connection, send_raw}
use fserv.Websocket.Frame.{send_pong}
use fserv.Websocket.{
  WebSocketResult, ws_ok, ws_error, ws_incomplete, ws_ping_pong, ws_close, ws_header_size,
  ws_masking_key_size, ws_opcode_mask, ws_masked_mask, ws_length_mask, ws_single_byte_length,
  ws_eight_byte_length, ws_opcode_text, ws_opcode_close, ws_opcode_ping, ws_opcode_pong,
  ws_maximum_client_frame_size,
}

pub record Received : Type 0 where
  pub result : WebSocketResult
  pub con : Connection
  pub input : Bytes
  pub output : Bytes

-- `msg[i]`, where `msg` is `input.c_str()`: the bytes and a zero behind them.
unfoldable pub read : Bytes → ℕ → Option ℕ
read s i = get_elem? (s ++ 0 ∷ []) i

-- The loop over the length bytes; `payload_length` is a uint64_t.
unfoldable pub read_length : Bytes → ℕ → ℕ → ℕ → Option ℕ
read_length s zero at payload_length = some payload_length
read_length s (suc n) at payload_length = do
  b ← read s at
  read_length s n (at + 1) (bit_or (payload_length * 2 ^ 8 % 2 ^ 64) b)

-- `msg[i] ^ mask[i % wsMaskingKeySize]` for the `n` indices from `i`.
unfoldable pub unmask : Bytes → ℕ → ℕ → ℕ → ℕ → Option Bytes
unmask s mask msg zero i = some []
unmask s mask msg (suc n) i = do
  b ← read s (msg + i)
  m ← read s (mask + i % ws_masking_key_size)
  rest ← unmask s mask msg n (i + 1)
  some (bit_xor b m ∷ rest)

-- The whole frame is in the buffer; `mask` is where its masking key starts.
unfoldable pub deliver : Connection → Bytes → Bytes → ℕ → ℕ → ℕ → Option Received
deliver con input output opcode mask payload_length =
    let rest = drop (mask + ws_masking_key_size + payload_length) input in
    let body = unmask input mask (mask + ws_masking_key_size) payload_length 0 in
    if opcode == ws_opcode_pong
    then some (record { result = ws_ping_pong; con = con; input = rest; output = output })
    else if opcode == ws_opcode_ping
    then (do
      ping_data ← body
      some (record {
        result = ws_ping_pong;
        con = (send_raw (send_pong ping_data) con).0;
        input = rest;
        output = output;
      }))
    else do
      message ← body
      some (record { result = ws_ok; con = con; input = rest; output = message })

abbrev stop : WebSocketResult → Connection → Bytes → Bytes → Option Received
stop result con input output =
    some (record { result = result; con = con; input = input; output = output })

-- Behind the length: the limit, and whether the whole frame has come.
unfoldable pub receive_payload : Connection → Bytes → Bytes → ℕ → ℕ → ℕ → Option Received
receive_payload con input output opcode lengthsize payload_length =
    if ltb ws_maximum_client_frame_size payload_length
    then stop ws_error con input output
    else if ltb (length input)
        (ws_header_size + lengthsize + (ws_masking_key_size + payload_length))
    then stop ws_incomplete con input output
    else deliver con input output opcode (ws_header_size + lengthsize) payload_length

-- The length that the hint stands for or announces.
unfoldable pub receive_length : Connection → Bytes → Bytes → ℕ → ℕ → Option Received
receive_length con input output opcode lengthhint =
    if ltb ws_single_byte_length lengthhint
    then (let lengthsize : ℕ = if lengthhint == ws_eight_byte_length then 8 else 2 in
        if ltb (length input) (ws_header_size + lengthsize)
        then stop ws_incomplete con input output
        else do
          payload_length ← read_length input lengthsize ws_header_size 0
          receive_payload con input output opcode lengthsize payload_length)
    else receive_payload con input output opcode 0 lengthhint

-- The mask bit and the opcode.
unfoldable pub receive_opcode : Connection → Bytes → Bytes → ℕ → Bool → ℕ → Option Received
receive_opcode con input output opcode masked lengthhint =
    if not masked
    then stop ws_error con input output
    else if opcode == ws_opcode_text || opcode == ws_opcode_ping || opcode == ws_opcode_pong
    then receive_length con input output opcode lengthhint
    else if opcode == ws_opcode_close
    then stop ws_close con input output
    else stop ws_error con input output

unfoldable pub receive : Connection → Bytes → Bytes → Option Received
receive con input output =
    if ltb (length input) ws_header_size then stop ws_incomplete con input output else do
      b1 ← read input 0
      b2 ← read input 1
      receive_opcode con input output (bit_and b1 ws_opcode_mask)
          (not (bit_and b2 ws_masked_mask == 0)) (bit_and b2 ws_length_mask)
