-- ===== src/Websocket/Safety.antt =====
-- `Hybi::receive` stays inside the read buffer, and what it takes from there.
use Prim.Native.Nat.{bit_or, bit_xor}
use fserv.Prelude.{
  ◌*◌, ◌^◌, ◌<◌, leb, take, ◌⊎◌, ==_iff, sym, ◌∙◌, append_assoc, ℕ, zero, suc, ◌+◌, ◌%◌, ◌≤◌, ◌≡◌,
  refl, ap, Bool, true, false, ◌||◌, Bool-cases, inl, inr, Option, none, some, [], ◌∷◌, ◌++◌, arith,
  ltb, ◌==◌, if◌then◌else◌, length, drop, length-append, get_elem?_of_lt, ◌>>=◌,
}
use fserv.Prelude.Bits.{bit_and-15, bit_and-127}
use fserv.Prelude.Bytes.{Bytes}
use fserv.Connection.{Connection, send_raw}
use fserv.Websocket.Frame.{send_pong}
use fserv.Websocket.Receive.{
  Received, read, read_length, unmask, deliver, receive_payload, receive_length, receive_opcode,
  receive,
}
use fserv.Websocket.{
  WebSocketResult, ws_ok, ws_incomplete, ws_ping_pong, ws_maximum_client_frame_size, ws_opcode_text,
  ws_opcode_ping, ws_opcode_pong, ws_opcode_close,
}

pub read_of_le : (s : Bytes) (i : ℕ) → i ≤ length s → (b : ℕ) × (read s i ≡ some b)
unfolding read
read_of_le s i h = get_elem?_of_lt (s ++ 0 ∷ []) i (omega (arith, length-append s (0 ∷ [])))

pub read_length_total :
    (s : Bytes) (n at acc : ℕ) → at + n ≤ length s → (v : ℕ) × (read_length s n at acc ≡ some v)
unfolding read_length
read_length_total s zero at acc h = (acc, refl)
read_length_total s (suc n) at acc h =
    let (b, e) = read_of_le s at (omega arith) in
    rw (e, read_length) (read_length_total s n (at + 1) _ (omega arith))

-- The number that the bytes spell, the highest first, on 64 bits.
abbrev number : ℕ → Bytes → ℕ
number v [] = v
number v (b ∷ bs) = number (bit_or (v * 2 ^ 8 % 2 ^ 64) b) bs

read-length : (pre s : Bytes) → 0 < length s → read (pre ++ s) (length pre) ≡ read s 0
unfolding read
read-length [] s h = refl
read-length (x ∷ pre) s h = read-length pre s h

read_length_right :
    (pre s : Bytes) (n acc at : ℕ)
    → at ≡ length pre
    → n ≤ length s
    → read_length (pre ++ s) n at acc ≡ some (number acc (take n s))
unfolding read_length read
read_length_right pre s zero acc at e h = refl
read_length_right pre [] (suc n) acc at e h = absurd (omega arith)
read_length_right pre (b ∷ s) (suc n) acc at e h =
    let here : read (pre ++ b ∷ s) at ≡ some b = rw e (read-length pre (b ∷ s) (omega arith)) in
    let shifted = append_assoc pre (b ∷ []) s in
    rw here (
      ap (λ t. read_length t n (at + 1) (bit_or (acc * 2 ^ 8 % 2 ^ 64) b)) (sym shifted)
      ∙ read_length_right (pre ++ b ∷ []) s n _ (at + 1)
          (omega (arith, e, length-append pre (b ∷ []))) (omega (arith, h)))

read_length_lem :
    (s : Bytes) (n : ℕ)
    → 2 + n ≤ length s
    → read_length s n 2 0 ≡ some (number 0 (take n (drop 2 s)))
read_length_lem [] n h = absurd (omega arith)
read_length_lem (a ∷ []) n h = absurd (omega arith)
read_length_lem (a ∷ b ∷ s) n h = read_length_right (a ∷ b ∷ []) s n 0 2 refl (omega (arith, h))

pub unmask_total :
    (s : Bytes) (mask msg n i : ℕ)
    → mask + 3 ≤ length s
    → msg + i + n ≤ length s
    → (p : Bytes) × (unmask s mask msg n i ≡ some p) × (length p ≡ n)
unfolding unmask
unmask_total s mask msg zero i h k = ([], refl, refl)
unmask_total s mask msg (suc n) i h k =
    let (b, e) = read_of_le s (msg + i) (omega arith) in
    let (m, e') = read_of_le s (mask + i % 4) (omega arith) in
    let (p, e'', l) = unmask_total s mask msg n (i + 1) h (omega arith) in
    (bit_xor b m ∷ p, rw (e, e', e'', unmask), ap suc l)

-- The low bits of the first byte, and of the second.
abbrev pub opcode_of : Bytes → ℕ
opcode_of [] = 0
opcode_of (b ∷ input) = b % 16

abbrev pub hint_of : Bytes → ℕ
hint_of (b1 ∷ b2 ∷ input) = b2 % 128
hint_of _ = 0

-- How many bytes hold the length behind the first two, and the length of the payload.
abbrev pub size_of : ℕ → ℕ
size_of hint = if leb hint 125 then 0 else if hint == 126 then 2 else 8

abbrev pub payload_of : ℕ → Bytes → ℕ
payload_of hint input = if leb hint 125 then hint else number 0 (take (size_of hint) (drop 2 input))

module _ (con : Connection) (input output : Bytes) where
  -- By the result, for the opcode, the bytes of the length and the payload's length: a message or
  -- a control frame is cut off the front of the buffer, whole and no more; a ping is answered with
  -- as many bytes as it has, and a pong is not; any other answer leaves all as it was.
  abbrev pub Cuts : ℕ → ℕ → ℕ → WebSocketResult → Received → Type 0
  Cuts opcode size n ws_ok r =
      (opcode ≡ ws_opcode_text)
      × (r.input ≡ drop (6 + size + n) input)
      × (6 + size + n ≤ length input)
      × (n ≤ ws_maximum_client_frame_size)
      × (length r.output ≡ n)
      × (r.con ≡ con)
  Cuts opcode size n ws_ping_pong r =
      (r.input ≡ drop (6 + size + n) input)
      × (6 + size + n ≤ length input)
      × (n ≤ ws_maximum_client_frame_size)
      × (r.output ≡ output)
      × ((opcode ≡ ws_opcode_pong) × (r.con ≡ con)
          ⊎ (opcode ≡ ws_opcode_ping)
            × ((ping_data : Bytes) × (length ping_data ≡ n)
                × (r.con ≡ (send_raw (send_pong ping_data) con).0)))
  Cuts opcode size n _ r = (r.con ≡ con) × (r.input ≡ input) × (r.output ≡ output)

  -- There is an answer: no read was outside the buffer.
  abbrev pub IsReceipt : ℕ → ℕ → ℕ → Option Received → Type 0
  IsReceipt opcode size n none = ⊥
  IsReceipt opcode size n (some r) = Cuts opcode size n r.result r

  abbrev is_known : ℕ → Bool
  is_known opcode = opcode == ws_opcode_text || opcode == ws_opcode_ping || opcode == ws_opcode_pong

  deliver-IsReceipt :
      (opcode size n : ℕ)
      → is_known opcode ≡ true
      → n ≤ ws_maximum_client_frame_size
      → 6 + size + n ≤ length input
      → IsReceipt opcode size n (deliver con input output opcode (2 + size) n)
  unfolding deliver
  deliver-IsReceipt opcode size n known small fits =
      let (p, e, l) =
        unmask_total input (2 + size) (2 + size + 4) n 0 (omega arith) (omega arith) in
      let cut : 2 + size + 4 + n ≡ 6 + size + n = omega arith in
      elim (Bool-cases (opcode == ws_opcode_pong)) [
        | inl pong ↦
            rw pong
              (ap (λ i. drop i input) cut, fits, small, refl, inl ((==_iff opcode _).0 pong, refl))
        | inr other ↦ elim (Bool-cases (opcode == ws_opcode_ping)) [
          | inl ping ↦
              rw (other, ping, e)
                (
                  ap (λ i. drop i input) cut,
                  fits,
                  small,
                  refl,
                  inr ((==_iff opcode _).0 ping, (p, l, refl)),
                )
          | inr text ↦
              rw (other, text, e)
                (
                  ground (arith, known, other, text),
                  ap (λ i. drop i input) cut,
                  fits,
                  small,
                  l,
                  refl,
                )
        ]
      ]

  receive_payload-IsReceipt :
      (opcode size n : ℕ)
      → is_known opcode ≡ true
      → IsReceipt opcode size n (receive_payload con input output opcode size n)
  unfolding receive_payload
  receive_payload-IsReceipt opcode size n known =
      elim (Bool-cases (ltb ws_maximum_client_frame_size n)) [
        | inl big ↦ rw big (refl, refl, refl)
        | inr fine ↦ elim (Bool-cases (ltb (length input) (2 + size + (4 + n)))) [
          | inl short ↦ rw (fine, short) (refl, refl, refl)
          | inr whole ↦
              rw (fine, whole) (deliver-IsReceipt opcode size n known (ground arith) (ground arith))
        ]
      ]

  sized-IsReceipt :
      (opcode size : ℕ)
      → is_known opcode ≡ true
      → IsReceipt opcode size (number 0 (take size (drop 2 input))) (
          if ltb (length input) (2 + size)
          then some (record { result = ws_incomplete; con = con; input = input; output = output })
          else (do n ← read_length input size 2 0; receive_payload con input output opcode size n))
  sized-IsReceipt opcode size known = elim (Bool-cases (ltb (length input) (2 + size))) [
    | inl short ↦ rw short (refl, refl, refl)
    | inr long ↦
        rw (long, read_length_lem input size (ground arith))
          (receive_payload-IsReceipt opcode size _ known)
  ]

  receive_length-IsReceipt :
      (opcode hint : ℕ)
      → hint < 128
      → is_known opcode ≡ true
      → IsReceipt opcode
          (size_of hint)
          (payload_of hint input)
          (receive_length con input output opcode hint)
  unfolding receive_length
  receive_length-IsReceipt opcode hint h known = elim (Bool-cases (leb hint 125)) [
    | inl single ↦
        let single' : ltb 125 hint ≡ false = ground (arith, single) in
        rw (single, single') (receive_payload-IsReceipt opcode 0 hint known)
    | inr long ↦
        let long' : ltb 125 hint ≡ true = ground (arith, long) in
        elim (Bool-cases (hint == 126)) [
          | inl two ↦
              let two' : (hint == 127) ≡ false = ground (arith, two) in
              rw (long, long', two, two') (sized-IsReceipt opcode 2 known)
          | inr eight ↦
              let eight' : (hint == 127) ≡ true = ground (arith, eight, long, h) in
              rw (long, long', eight, eight') (sized-IsReceipt opcode 8 known)
        ]
  ]

  receive_opcode-IsReceipt :
      (opcode : ℕ) (masked : Bool) (hint : ℕ)
      → hint < 128
      → IsReceipt opcode
          (size_of hint)
          (payload_of hint input)
          (receive_opcode con input output opcode masked hint)
  unfolding receive_opcode
  receive_opcode-IsReceipt opcode false hint h = (refl, refl, refl)
  receive_opcode-IsReceipt opcode true hint h = elim (Bool-cases (is_known opcode)) [
    | inl known ↦ rw known (receive_length-IsReceipt opcode hint h known)
    | inr other ↦ elim (Bool-cases (opcode == ws_opcode_close)) [
      | inl close ↦ rw (other, close) (refl, refl, refl)
      | inr unknown ↦ rw (other, unknown) (refl, refl, refl)
    ]
  ]

-- For every connection, read buffer and old output, receiving never reads outside the buffer. If
-- it yields a message, then the first byte has the opcode of a text, the message is as long as the
-- frame announces, at most 0x80000 bytes, the buffer has lost from its front exactly the two first
-- bytes, the bytes of the length (none, 2 or 8), the 4 of the key and the message, and the
-- connection is as it was. If it handles a control frame, the buffer has lost exactly that frame,
-- of at most as many bytes, the output is as it was, and so is the connection for a pong, while
-- for a ping it has been sent one pong frame of as many bytes as the ping announces. In every
-- other case connection, buffer and output are as they were.
pub receive-IsReceipt :
    (con : Connection) (input output : Bytes)
    → IsReceipt con input output
        (opcode_of input)
        (size_of (hint_of input))
        (payload_of (hint_of input) input)
        (receive con input output)
unfolding receive read
receive-IsReceipt con [] output = (refl, refl, refl)
receive-IsReceipt con (b ∷ []) output = (refl, refl, refl)
receive-IsReceipt con (b1 ∷ b2 ∷ input) output =
    let long : ltb (length (b1 ∷ b2 ∷ input)) 2 ≡ false = ground arith in
    rw long (
      rw (bit_and-15 b1, bit_and-127 b2)
        (receive_opcode-IsReceipt con (b1 ∷ b2 ∷ input) output (b1 % 16) _ (b2 % 128)
          (omega arith)))
