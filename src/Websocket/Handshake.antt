-- ===== src/Websocket/Handshake.antt =====
-- `Acceptor::accept` and `Hybi::accept` of src/websocket.cpp: the opening request and its answer.
-- The hash and the base64 encoding are copies of Chromium's code (src/sha1.cpp, src/base64.cpp)
-- and are parameters here.
pub mod Find
pub mod Requests
use fserv.Prelude.{
  ℕ, zero, suc, ◌+◌, ◌-◌, ◌≡◌, Bool, true, false, ◌&&◌, not, Option, none, some, List, [], ◌∷◌,
  ◌++◌, leb, if◌then◌else◌, ◌==◌, length, take, drop, is_empty, ◌>>=◌,
}
use fserv.Prelude.Bytes.{Bytes, codes, lowered, c_str}
use fserv.Prelude.Maps.{Map, bytes_eq, lookup, insert, has}
use fserv.Websocket.{
  ProtocolVersion, protocol_hybi, protocol_bad, protocol_incomplete, WebSocketResult, ws_ok,
  ws_error,
}

unfoldable pub starts_with : Bytes → Bytes → Bool
starts_with [] s = true
starts_with (c ∷ p) [] = false
starts_with (c ∷ p) (d ∷ s) = c == d && starts_with p s

-- `s.find(p)`; `none` is `npos`.
unfoldable pub find : Bytes → Bytes → Option ℕ
find p [] = if starts_with p [] then some 0 else none
find p (c ∷ s) =
    let rest = find p s in if starts_with p (c ∷ s) then some 0 else (do i ← rest; some (suc i))

abbrev pub crlf : Bytes
crlf = 13 ∷ 10 ∷ []

abbrev pub colon : Bytes
colon = 58 ∷ 32 ∷ []

abbrev pub Headers : Type 0
Headers = Map Bytes Bytes

-- One line of the request.
unfoldable pub add_header : Bytes → Headers → Headers
add_header line headers = elim (find colon line) [
  | none ↦ headers
  | some i ↦ insert (lowered (take i line)) (drop (i + 2) line) headers
]

-- The loop over the lines, on fuel: each line takes two bytes at least.
unfoldable pub parse_headers : ℕ → Bytes → Headers → Option Headers
parse_headers zero remainder headers = none
parse_headers (suc fuel) remainder headers = elim (find crlf remainder) [
  | none ↦ some headers
  | some end ↦
      parse_headers fuel (drop (end + 2) remainder) (add_header (take end remainder) headers)
]

-- What `snprintf` left in a zeroed array of the given size, read back as a string of the length
-- that it returned, which is the whole text's; `none` is a read behind the array.
unfoldable pub from_array : ℕ → Bytes → Option Bytes
from_array size text =
    if leb (length text) size
    then some (take (length text) (take (size - 1) text ++ 0 ∷ []))
    else none

abbrev pub ws_magical_guid : Bytes
ws_magical_guid = codes "258EAFA5-E914-47DA-95CA-C5AB0DC85B11"

abbrev pub buffer_size : ℕ
buffer_size = 4096

-- The answer to a request, around the encoded key.
abbrev pub switching : Bytes → Bytes
switching encodedkey =
    (codes
        "HTTP/1.1 101 Switching Protocols\r\nUpgrade: websocket\r\nConnection: Upgrade\r\nSec-WebSocket-Accept: "
      ++ c_str encodedkey)
    ++ (crlf ++ crlf)

pub record Accepted : Type 0 where
  pub version : ProtocolVersion
  pub output : Bytes
  pub ip : Bytes

-- `headers[name]`, which is empty where the name is missing.
abbrev pub or_else : Bytes → Option Bytes → Bytes
or_else d none = d
or_else d (some v) = v

abbrev pub value_of : Bytes → Headers → Bytes
value_of name headers = or_else [] (lookup name headers)

module _ (sha1_hash_string base64_encode : Bytes → Bytes) where
  -- The result and the new output; an empty key leaves the output as it was.
  unfoldable pub hybi_accept : Bytes → Bytes → Option (WebSocketResult × Bytes)
  hybi_accept key output = if is_empty key then some (ws_error, output) else do
    keystr ← from_array buffer_size (c_str key ++ ws_magical_guid)
    tmp ← from_array buffer_size (switching (base64_encode (sha1_hash_string keystr)))
    some (ws_ok, tmp)

  -- Behind the loop over the lines.
  unfoldable pub negotiate : Headers → Bytes → Option Accepted
  negotiate headers ip =
      let ip' : Bytes =
        if has (codes "x-real-ip") headers then value_of (codes "x-real-ip") headers else ip in
      if has (codes "sec-websocket-version") headers && has (codes "sec-websocket-key") headers
      then (do
        (result, outbuffer) ← hybi_accept (value_of (codes "sec-websocket-key") headers) []
        some (record {
          version = elim result [ ws_ok ↦ protocol_hybi | _ ↦ protocol_bad ];
          output = outbuffer;
          ip = ip';
        }))
      else some (record { version = protocol_bad; output = []; ip = ip' })

  unfoldable pub accept : Bytes → Bytes → Bytes → Option Accepted
  accept input output ip = elim (find (crlf ++ crlf) input) [
    | none ↦ some (record { version = protocol_incomplete; output = output; ip = ip })
    | some _ ↦ do headers ← parse_headers (suc (length input)) input []; negotiate headers ip
  ]
