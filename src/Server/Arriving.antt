-- ===== src/Server/Arriving.antt =====
-- How a client arrives: the part of `Server::listenCallback` of src/server.cpp behind `accept`, and
-- `Server::handshakeCallback`.
use fserv.Prelude.{
  ℕ, ◌+◌, ◌∙◌, ◌<◌, ◌≡◌, ap, Bool, true, false, Option, none, some, List, [], ◌∷◌, ◌++◌, ltb,
  if◌then◌else◌, length, is_empty, ◌>>=◌,
}
use fserv.Prelude.Bytes.{Bytes, codes, c_str, IsText}
use fserv.Prelude.Int.{ℤ, pos}
use fserv.Connection.{Connection, new_connection, send_raw}
use fserv.Rooms.{Heap, with_connection}
use fserv.ServerState.{ServerState, add_unidentified}
use fserv.Websocket.{protocol_hybi, protocol_incomplete}
use fserv.Websocket.Handshake.{
  Accepted, accept, find, colon, ws_magical_guid, buffer_size, switching,
}
use fserv.Websocket.Handshake.Find.{IsFree}
use fserv.Websocket.Handshake.Requests.{Header, IsHeaders, request, header_value, accept_upgrade}
use fserv.Server.Reading.{RecvReturn, recv_again, recv_failed, recv_bytes}

-- The connection that the listener makes for a client at `address`. The timer has 30 seconds.
unfoldable pub arrived : ℕ → Connection
arrived address = record new_connection {
  client_address = address;
  timer_event = record { started = true; after = pos 30_000_000; repeat = pos 30_000_000 };
  read_started = true;
}

-- It is kept under the pointer `k`.
unfoldable pub listen_callback : ℕ → ℕ → Heap × ServerState → Heap × ServerState
unfolding arrived
listen_callback address k (h, s) =
    (with_connection k (λ _. arrived address) h, add_unidentified k s)

abbrev pub max_handshake_read_buffer : ℕ
max_handshake_read_buffer = 0x2000

-- `shut_down` is `prepareShutdownConnection` and the `close` of the socket, `is_lb` the list of
-- load balancers, `inet_pton` the function of the C library.
module _ (sha1_hash_string base64_encode : Bytes → Bytes) (shut_down : Connection → Connection)
    (is_lb : ℕ → Bool) (inet_pton : Bytes → Option ℕ) where
  unfoldable pub upgrade : Accepted → Connection → Connection
  upgrade r con = record (send_raw r.output con).0 {
    protocol = r.version;
    read_buffer = [];
    read_started = true;
  }

  -- The address behind a load balancer.
  unfoldable pub take_address : Accepted → Connection → Connection
  take_address r con =
      if is_lb con.client_address
      then elim (inet_pton (c_str r.ip)) [
        | none ↦ shut_down con
        | some address ↦ upgrade r (record con { client_address = address })
      ]
      else upgrade r con

  -- The switch on the result.
  unfoldable pub after_accept : Accepted → Connection → Connection
  after_accept r con = elim r.version [
    | protocol_hybi ↦ take_address r con
    | protocol_incomplete ↦ con
    | _ ↦ shut_down con
  ]

  unfoldable pub handshake_received : ℤ → Bytes → Connection → Option Connection
  unfolding after_accept
  handshake_received now bytes con = do
    let con' : Connection = record con {
      last_activity = now;
      read_buffer = con.read_buffer ++ bytes;
    }
    r ← accept sha1_hash_string base64_encode con'.read_buffer [] []
    some (after_accept r con')

  unfoldable pub after_handshake_recv : ℤ → RecvReturn → Connection → Option Connection
  after_handshake_recv now recv_again con = some con
  after_handshake_recv now recv_failed con = some (shut_down con)
  after_handshake_recv now (recv_bytes bytes) con = handshake_received now bytes con

  unfoldable pub handshake_callback : Bool → Bool → ℤ → RecvReturn → Connection → Option Connection
  unfolding after_handshake_recv
  handshake_callback error readable now answer con =
      let full = ltb max_handshake_read_buffer (length con.read_buffer) in
      if con.closed
      then some con
      else if error
      then some (shut_down con)
      else if readable
      then after_handshake_recv now answer (if full then shut_down con else con)
      else some con

  -- A read completes, with what was in the read buffer, a request whose start line has no ": " and
  -- no line end and whose headers are well formed, with a version and a non-empty key that has no
  -- zero byte and leaves room in the 4096 bytes, as the answer does. If the connection is open, its
  -- read buffer was not too large and the client is no load balancer, then the callback queues
  -- the upgrade's answer behind what was queued, the connection speaks the protocol, and its read
  -- buffer is empty.
  pub handshake_callback-upgrade :
      (now : ℤ) (bytes : Bytes) (con : Connection) (start : Bytes) (hs : List Header)
      (version key : Bytes)
      → con.closed ≡ false
      → ltb max_handshake_read_buffer (length con.read_buffer) ≡ false
      → con.read_buffer ++ bytes ≡ request start hs
      → IsFree 13 start
      → find colon start ≡ none
      → IsHeaders hs
      → header_value (codes "sec-websocket-version") hs ≡ some version
      → header_value (codes "sec-websocket-key") hs ≡ some key
      → is_empty key ≡ false
      → IsText key
      → length key + 36 < buffer_size
      → length (switching (base64_encode (sha1_hash_string (key ++ ws_magical_guid)))) < buffer_size
      → is_lb con.client_address ≡ false
      → handshake_callback false true now (recv_bytes bytes) con
        ≡ some (record con {
          last_activity = now;
          read_buffer = [];
          protocol = protocol_hybi;
          write_queue =
              con.write_queue
              ++ switching (base64_encode (sha1_hash_string (key ++ ws_magical_guid))) ∷ [];
          read_started = true;
          write_started = true;
        })
  unfolding handshake_callback handshake_received take_address upgrade send_raw
  handshake_callback-upgrade now bytes con start hs version key fresh small e free c ok ev ek ne
        text short room lb =
      let a =
        ap (λ b. accept sha1_hash_string base64_encode b [] []) e
        ∙ accept_upgrade sha1_hash_string base64_encode start hs free c ok [] [] version key ev ek
            ne text short room in
      rw (fresh, small) (rw a (rw (take_address, lb)))
