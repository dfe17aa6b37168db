-- ===== src/Websocket/RoundTrip.antt =====
-- The frame codec against the framing of RFC 6455, section 5.2: what a client sends is received,
-- and what the server sends is a frame of the message.
use Prim.Native.Nat.{bit_and, bit_xor, bit_or}
use fserv.Prelude.{
  ℕ, zero, suc, ◌+◌, ◌*◌, ◌/◌, ◌%◌, ◌^◌, ◌≤◌, ◌<◌, ◌≡◌, refl, ap, true, false, ◌||◌, Bool-cases,
  ◌⊎◌, inl, inr, ◌∙◌, sym, append_assoc, Option, some, [], ◌∷◌, ◌++◌, arith, ltb, leb,
  if◌then◌else◌, ◌==◌, length, drop, take-length, length-append,
}
use fserv.Prelude.Bits.{
  bit_and-15, bit_and-127, bit_and-128, bit_and-255, bit_and-high_byte, bit_or-shifted, bit_or-128,
  bit_xor_twice,
}
use fserv.Prelude.Bytes.{Bytes}
use fserv.Connection.{Connection, send_raw}
use fserv.Websocket.Receive.{
  Received, read, read_length, unmask, deliver, receive_payload, receive_length, receive_opcode,
  receive,
}
use fserv.Websocket.Frame.{length_bytes, send_message, send_pong}
use fserv.Websocket.{
  ws_ok, ws_ping_pong, ws_maximum_client_frame_size, ws_opcode_text, ws_opcode_ping, ws_opcode_pong,
}

-- The `n` lowest bytes of a number, the highest of them first.
abbrev pub big_endian : ℕ → ℕ → Bytes
big_endian zero v = []
big_endian (suc n) v = v / 2 ^ (8 * n) % 256 ∷ big_endian n v

-- The second byte of a frame and the extended length, with `flag` the mask bit.
abbrev pub frame_length : ℕ → ℕ → Bytes
frame_length flag n =
    if leb n 125
    then (flag + n) ∷ []
    else if ltb n (2 ^ 16)
    then (flag + 126) ∷ big_endian 2 n
    else (flag + 127) ∷ big_endian 8 n

pub record MaskingKey : Type 0 where
  pub k0 : ℕ
  pub k1 : ℕ
  pub k2 : ℕ
  pub k3 : ℕ

abbrev pub octet : MaskingKey → ℕ → ℕ
octet k j = if j == 0 then k.k0 else if j == 1 then k.k1 else if j == 2 then k.k2 else k.k3

abbrev pub key_bytes : MaskingKey → Bytes
key_bytes k = k.k0 ∷ k.k1 ∷ k.k2 ∷ k.k3 ∷ []

-- Octet `i` of the data is masked with octet `i % 4` of the key.
abbrev pub masked : MaskingKey → ℕ → Bytes → Bytes
masked k i [] = []
masked k i (b ∷ p) = bit_xor b (octet k (i % 4)) ∷ masked k (i + 1) p

-- A final frame of a client.
abbrev pub client_frame : ℕ → MaskingKey → Bytes → Bytes
client_frame opcode k p =
    (128 + opcode) ∷ (frame_length 128 (length p) ++ key_bytes k ++ masked k 0 p)

-- A final frame of a server.
abbrev pub server_frame : ℕ → Bytes → Bytes
server_frame opcode p = (128 + opcode) ∷ (frame_length 0 (length p) ++ p)

length_bytes-frame_length : (n : ℕ) → n < 2 ^ 32 → length_bytes n ≡ frame_length 0 n
unfolding length_bytes
length_bytes-frame_length n h = elim (Bool-cases (leb n 125)) [
  | inl one ↦ rw one (ground arith)
  | inr more ↦ elim (Bool-cases (leb n 0xffff)) [
    | inl two ↦
        let two' : ltb n (2 ^ 16) ≡ true = ground arith in
        rw (more, two, two', bit_and-255, bit_and-high_byte) (ground arith)
    | inr eight ↦
        let eight' : ltb n (2 ^ 16) ≡ false = ground arith in
        rw (more, eight, eight') (simp bit_and-255 (ground arith))
  ]
]

-- For an opcode below 16 and a message of fewer than 2^32 bytes, the server sends exactly the
-- frame of the standard: final, unmasked, with the shortest form of the length.
pub send_message-server_frame :
    (opcode : ℕ) (p : Bytes)
    → opcode < 16
    → length p < 2 ^ 32
    → send_message opcode p ≡ server_frame opcode p
unfolding send_message
send_message-server_frame opcode p ho hp =
    let n : length p % 2 ^ 32 ≡ length p = omega arith in
    let o : bit_or 128 opcode % 256 ≡ 128 + opcode = omega (arith, bit_or-128 opcode ho) in
    rw (n, o, take-length p, length_bytes-frame_length (length p) hp)

read_right : (pre ys : Bytes) (i j : ℕ) → i ≡ length pre + j → read (pre ++ ys) i ≡ read ys j
unfolding read
read_right [] ys i j e = let e' : i ≡ j = omega arith in rw e'
read_right (x ∷ pre) ys zero j e = absurd (omega arith)
read_right (x ∷ pre) ys (suc i) j e = read_right pre ys i j (omega arith)

module _ (k : MaskingKey) (rest s : Bytes) (mask msg : ℕ) where
  unmask-masked :
      (p pre : Bytes) (i : ℕ)
      → s ≡ pre ++ (masked k i p ++ rest)
      → length pre ≡ msg + i
      → ((j : ℕ) → j < 4 → read s (mask + j) ≡ some (octet k j))
      → unmask s mask msg (length p) i ≡ some p
  unfolding unmask read
  unmask-masked [] pre i e l key = refl
  unmask-masked (b ∷ p) pre i e l key =
      let x = bit_xor b (octet k (i % 4)) in
      let here : read s (msg + i) ≡ some x = rw e (read_right pre _ (msg + i) 0 (omega arith)) in
      let shifted : s ≡ (pre ++ x ∷ []) ++ (masked k (i + 1) p ++ rest) =
        e ∙ sym (append_assoc pre (x ∷ []) _) in
      rw
        (
          here,
          key (i % 4) (omega arith),
          unmask-masked p (pre ++ x ∷ []) (i + 1) shifted
              (omega (arith, length-append pre (x ∷ []))) key,
        )
        (rw (bit_xor_twice b (octet k (i % 4))))

key_at :
    (k : MaskingKey) (pre ys : Bytes) (j : ℕ)
    → j < 4
    → read (pre ++ (key_bytes k ++ ys)) (length pre + j) ≡ some (octet k j)
unfolding read
key_at k pre ys j h = read_right pre _ (length pre + j) j refl ∙ at j h
  where
    at : (j : ℕ) → j < 4 → read (key_bytes k ++ ys) j ≡ some (octet k j)
    at zero h = refl
    at (suc zero) h = refl
    at (suc (suc zero)) h = refl
    at (suc (suc (suc zero))) h = refl
    at (suc (suc (suc (suc j)))) h = absurd (omega arith)

length-masked : (k : MaskingKey) (i : ℕ) (p : Bytes) → length (masked k i p) ≡ length p
length-masked k i [] = refl
length-masked k i (b ∷ p) = ap suc (length-masked k (i + 1) p)

drop_right : (pre ys : Bytes) (n : ℕ) → n ≡ length pre → drop n (pre ++ ys) ≡ ys
drop_right [] ys zero e = refl
drop_right [] ys (suc n) e = absurd (omega arith)
drop_right (x ∷ pre) ys zero e = absurd (omega arith)
drop_right (x ∷ pre) ys (suc n) e = drop_right pre ys n (omega arith)

-- The answers to a whole frame with payload `p` in front of `rest`.
abbrev pub answer : Connection → Bytes → ℕ → Bytes → Bytes → Received
answer con output opcode p rest =
    if opcode == ws_opcode_pong
    then record { result = ws_ping_pong; con = con; input = rest; output = output }
    else if opcode == ws_opcode_ping
    then record {
      result = ws_ping_pong;
      con = (send_raw (send_pong p) con).0;
      input = rest;
      output = output;
    }
    else record { result = ws_ok; con = con; input = rest; output = p }

module _ (con : Connection) (output : Bytes) (k : MaskingKey) (p rest : Bytes) where
  deliver-masked :
      (opcode : ℕ) (pre s : Bytes)
      → s ≡ pre ++ (key_bytes k ++ (masked k 0 p ++ rest))
      → deliver con s output opcode (length pre) (length p) ≡ some (answer con output opcode p rest)
  unfolding deliver
  deliver-masked opcode pre s e =
      let e' : s ≡ (pre ++ key_bytes k) ++ (masked k 0 p ++ rest) =
        e ∙ sym (append_assoc pre (key_bytes k) _) in
      let l : length (pre ++ key_bytes k) ≡ length pre + 4 = length-append pre (key_bytes k) in
      let keys : (j : ℕ) → j < 4 → read s (length pre + j) ≡ some (octet k j) =
        λ j h. rw e (key_at k pre _ j h) in
      let body : unmask s (length pre) (length pre + 4) (length p) 0 ≡ some p =
        unmask-masked k rest s (length pre) (length pre + 4) p (pre ++ key_bytes k) 0 e'
          (omega (arith, l)) keys in
      let e'' : s ≡ ((pre ++ key_bytes k) ++ masked k 0 p) ++ rest =
        e' ∙ sym (append_assoc (pre ++ key_bytes k) (masked k 0 p) rest) in
      let left : drop (length pre + 4 + length p) s ≡ rest = rw e'' (
        drop_right ((pre ++ key_bytes k) ++ masked k 0 p) rest _ (
          omega
            (arith, l, length-append (pre ++ key_bytes k) (masked k 0 p), length-masked k 0 p))) in
      rw (body, left) (ground arith)

  receive_payload-masked :
      (opcode size : ℕ) (pre s : Bytes)
      → s ≡ pre ++ (key_bytes k ++ (masked k 0 p ++ rest))
      → length pre ≡ 2 + size
      → length p ≤ ws_maximum_client_frame_size
      → receive_payload con s output opcode size (length p) ≡ some (answer con output opcode p rest)
  unfolding receive_payload
  receive_payload-masked opcode size pre s e l small =
      let fine : ltb ws_maximum_client_frame_size (length p) ≡ false = ground arith in
      let n : length s ≡ length pre + (4 + (length p + length rest)) = omega (
        arith,
        ap length e,
        length-append pre (key_bytes k ++ (masked k 0 p ++ rest)),
        length-append (masked k 0 p) rest,
        length-masked k 0 p,
      ) in
      let whole : ltb (length s) (2 + size + (4 + length p)) ≡ false = ground arith in
      rw (fine, whole, ← l) (deliver-masked opcode pre s e)

-- One round of the loop over the length bytes brings in the next digit.
push-digit : (a x : ℕ) → a ≡ x / 256 → x < 2 ^ 64 → bit_or (a * 2 ^ 8 % 2 ^ 64) (x % 256) ≡ x
push-digit a x e h =
    let e' : a * 2 ^ 8 % 2 ^ 64 ≡ x / 256 * 256 = omega arith in
    rw e' (omega (arith, bit_or-shifted (x / 256) (x % 256)))

read_length-big_endian :
    (b1 b2 v : ℕ) (ys : Bytes)
    → v < 2 ^ 64
    → (v < 2 ^ 16 → read_length (b1 ∷ b2 ∷ (big_endian 2 v ++ ys)) 2 2 0 ≡ some v)
      × (read_length (b1 ∷ b2 ∷ (big_endian 8 v ++ ys)) 8 2 0 ≡ some v)
unfolding read_length read
read_length-big_endian b1 b2 v ys h = (
  λ small.
      rw
        (
          first (v / 256 % 256) (omega arith),
          push-digit (v / 256 % 256) (v / 1) (omega arith) (omega arith),
        )
        (ap some (omega arith)),
  rw
      (
        first (v / 72057594037927936 % 256) (omega arith),
        push-digit (v / 72057594037927936 % 256) (v / 281474976710656) (omega arith) (omega arith),
        push-digit (v / 281474976710656) (v / 1099511627776) (omega arith) (omega arith),
        push-digit (v / 1099511627776) (v / 4294967296) (omega arith) (omega arith),
        push-digit (v / 4294967296) (v / 16777216) (omega arith) (omega arith),
        push-digit (v / 16777216) (v / 65536) (omega arith) (omega arith),
        push-digit (v / 65536) (v / 256) (omega arith) (omega arith),
        push-digit (v / 256) (v / 1) (omega arith) (omega arith),
      )
      (ap some (omega arith)),
)
  where
    first : (b : ℕ) → b < 256 → bit_or 0 b ≡ b
    first b lt = omega (arith, bit_or-shifted 0 b lt)

-- The opcodes that a client may send data or a control frame under.
abbrev pub IsDelivered : ℕ → Type 0
IsDelivered opcode =
    (opcode ≡ ws_opcode_text) ⊎ (opcode ≡ ws_opcode_ping) ⊎ (opcode ≡ ws_opcode_pong)

receive-header :
    (con : Connection) (output : Bytes) (opcode hint : ℕ) (ys : Bytes)
    → IsDelivered opcode
    → hint < 128
    → receive con ((128 + opcode) ∷ (128 + hint) ∷ ys) output
      ≡ receive_length con ((128 + opcode) ∷ (128 + hint) ∷ ys) output opcode hint
unfolding receive receive_opcode read
receive-header con output opcode hint ys known h =
    let o : bit_and (128 + opcode) 15 ≡ opcode = omega (arith, bit_and-15 (128 + opcode)) in
    let m : bit_and (128 + hint) 128 ≡ 128 = omega (arith, bit_and-128 (128 + hint)) in
    let l : bit_and (128 + hint) 127 ≡ hint = omega (arith, bit_and-127 (128 + hint)) in
    let long : ltb (suc (suc (length ys))) 2 ≡ false = ground arith in
    let d : opcode == ws_opcode_text || opcode == ws_opcode_ping || opcode == ws_opcode_pong
        ≡ true =
      ground arith in
    rw (long, o, m, l, d)

module _ (con : Connection) (output : Bytes) (k : MaskingKey) (p rest : Bytes) (opcode : ℕ) where
  abbrev framed : Bytes → Bytes
  framed size = (128 + opcode) ∷ (size ++ (key_bytes k ++ (masked k 0 p ++ rest)))

  abbrev answered : Option Received
  answered = some (answer con output opcode p rest)

  receive_length-single :
      length p ≤ 125
      → receive_length con (framed ((128 + length p) ∷ [])) output opcode (length p) ≡ answered
  unfolding receive_length
  receive_length-single h =
      let one : ltb 125 (length p) ≡ false = ground arith in
      rw one (
        receive_payload-masked con output k p rest opcode 0 ((128 + opcode) ∷ (128 + length p) ∷ [])
          _ refl refl (omega arith))

  receive_length-two :
      length p < 2 ^ 16
      → receive_length con (framed (254 ∷ big_endian 2 (length p))) output opcode 126 ≡ answered
  unfolding receive_length
  receive_length-two h =
      let l =
        (read_length-big_endian (128 + opcode) 254 (length p)
            (key_bytes k ++ (masked k 0 p ++ rest)) (omega arith)).0
          h in
      let long : ltb (length (framed (254 ∷ big_endian 2 (length p)))) 4 ≡ false = ground arith in
      rw (long, l)
        (receive_payload-masked con output k p rest opcode 2
          ((128 + opcode) ∷ 254 ∷ big_endian 2 (length p)) _ refl refl (omega arith))

  receive_length-eight :
      length p ≤ ws_maximum_client_frame_size
      → receive_length con (framed (255 ∷ big_endian 8 (length p))) output opcode 127 ≡ answered
  unfolding receive_length
  receive_length-eight h =
      let l =
        (read_length-big_endian (128 + opcode) 255 (length p)
          (key_bytes k ++ (masked k 0 p ++ rest)) (omega arith)).1 in
      let long : ltb (length (framed (255 ∷ big_endian 8 (length p)))) 10 ≡ false = ground arith in
      rw (long, l)
        (receive_payload-masked con output k p rest opcode 8
          ((128 + opcode) ∷ 255 ∷ big_endian 8 (length p)) _ refl refl h)

  -- A frame that a client masks with any key, with opcode text, ping or pong, a payload of at
  -- most 0x80000 bytes and anything behind it in the buffer, is received whole: text yields the
  -- payload, a ping queues the pong with the payload, a pong does nothing more, and what was
  -- behind the frame is what is left of the buffer.
  pub receive-client_frame :
      IsDelivered opcode
      → length p ≤ ws_maximum_client_frame_size
      → receive con (client_frame opcode k p ++ rest) output
        ≡ some (answer con output opcode p rest)
  receive-client_frame known small = elim (Bool-cases (leb (length p) 125)) [
    | inl one ↦ rw one (
        receive-header con output opcode (length p) _ known (ground arith)
        ∙ receive_length-single (ground arith))
    | inr more ↦ elim (Bool-cases (ltb (length p) (2 ^ 16))) [
      | inl two ↦
          rw (more, two)
            (receive-header con output opcode 126 _ known (omega arith)
              ∙ receive_length-two (ground arith))
      | inr eight ↦
          rw (more, eight)
            (receive-header con output opcode 127 _ known (omega arith)
              ∙ receive_length-eight small)
    ]
  ]
