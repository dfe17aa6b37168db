-- ===== src/Websocket/Stream.antt =====
-- `Hybi::receive` on a buffer that more bytes have been appended to since.
use fserv.Prelude.{
  ℕ, zero, suc, ◌+◌, ◌%◌, ◌≤◌, ◌<◌, ◌≡◌, ◌≢◌, refl, ap, Bool, true, false, ◌||◌, Bool-cases, inl,
  inr, ◌∙◌, sym, Option, none, some, [], ◌∷◌, ◌++◌, arith, ltb, if◌then◌else◌, ◌==◌, length,
  length-append, drop-append_of_le, get_elem?-append_of_lt, ◌>>=◌,
}
use fserv.Prelude.Bytes.{Bytes}
use fserv.Connection.{Connection}
use mathlib.Core.Path.{fun_ext}
use fserv.Websocket.Safety.{read_of_le, read_length_total, unmask_total}
use fserv.Websocket.Receive.{
  Received, read, read_length, unmask, deliver, receive_payload, receive_length, receive_opcode,
  receive,
}
use fserv.Websocket.{
  ws_incomplete, ws_maximum_client_frame_size, ws_opcode_text, ws_opcode_ping, ws_opcode_pong,
  ws_opcode_close, ws_single_byte_length, ws_eight_byte_length,
}

module _ (s t : Bytes) where
  pub read-append : (i : ℕ) → i < length s → read (s ++ t) i ≡ read s i
  unfolding read
  read-append i h =
      get_elem?-append_of_lt (s ++ t) (0 ∷ []) i (omega (arith, length-append s t))
      ∙ get_elem?-append_of_lt s t i h
      ∙ sym (get_elem?-append_of_lt s (0 ∷ []) i h)

  read_length-append :
      (n at acc : ℕ) → at + n ≤ length s → read_length (s ++ t) n at acc ≡ read_length s n at acc
  unfolding read_length
  read_length-append zero at acc h = refl
  read_length-append (suc n) at acc h =
      rw (read-append at (omega arith))
        (ap (◌>>=◌ (read s at)) (fun_ext λ b. read_length-append n (at + 1) _ (omega arith)))

  unmask-append :
      (mask msg n i : ℕ)
      → mask + 3 < length s
      → msg + i + n ≤ length s
      → unmask (s ++ t) mask msg n i ≡ unmask s mask msg n i
  unfolding unmask
  unmask-append mask msg zero i h k = refl
  unmask-append mask msg (suc n) i h k = rw (
    read-append (msg + i) (omega arith),
    read-append (mask + i % 4) (omega arith),
    unmask-append mask msg n (i + 1) h (omega arith),
  )

-- An answer other than "incomplete" stays what it is, and the new bytes stay behind the rest.
abbrev pub Extends : Bytes → Option Received → Option Received → Type 0
Extends t none r' = ⊥
Extends t (some r) r' =
    r.result ≢ ws_incomplete
    → r' ≡ some (record { result = r.result; con = r.con; input = r.input ++ t; output = r.output })

module _ (con : Connection) (input more output : Bytes) where
  deliver-Extends :
      (opcode mask n : ℕ)
      → mask + 4 + n ≤ length input
      → Extends more
          (deliver con input output opcode mask n)
          (deliver con (input ++ more) output opcode mask n)
  unfolding deliver
  deliver-Extends opcode mask n fits =
      let (p, e, _) = unmask_total input mask (mask + 4) n 0 (omega arith) (omega arith) in
      let e' = unmask-append input more mask (mask + 4) n 0 (omega arith) (omega arith) ∙ e in
      let d = drop-append_of_le (mask + 4 + n) input more fits in
      elim (Bool-cases (opcode == ws_opcode_pong)) [
        | inl pong ↦ rw pong (λ _. rw d)
        | inr other ↦ elim (Bool-cases (opcode == ws_opcode_ping)) [
          | inl ping ↦ rw (other, ping, e, e') (λ _. rw d)
          | inr text ↦ rw (other, text, e, e') (λ _. rw d)
        ]
      ]

  receive_payload-Extends :
      (opcode size n : ℕ)
      → Extends more
          (receive_payload con input output opcode size n)
          (receive_payload con (input ++ more) output opcode size n)
  unfolding receive_payload
  receive_payload-Extends opcode size n = elim (Bool-cases (ltb ws_maximum_client_frame_size n)) [
    | inl big ↦ rw big (λ _. refl)
    | inr fine ↦ elim (Bool-cases (ltb (length input) (2 + size + (4 + n)))) [
      | inl short ↦ rw (fine, short) (λ h. absurd (h refl))
      | inr whole ↦
          let whole' : ltb (length (input ++ more)) (2 + size + (4 + n)) ≡ false =
            ground (arith, length-append input more) in
          rw (fine, whole, whole') (deliver-Extends opcode (2 + size) n (ground arith))
    ]
  ]

  sized-Extends :
      (opcode size : ℕ)
      → Extends more
          (if ltb (length input) (2 + size)
            then some (record { result = ws_incomplete; con = con; input = input; output = output })
            else (do
              n ← read_length input size 2 0
              receive_payload con input output opcode size n))
          (if ltb (length (input ++ more)) (2 + size)
            then some (record {
              result = ws_incomplete;
              con = con;
              input = input ++ more;
              output = output;
            })
            else (do
              n ← read_length (input ++ more) size 2 0
              receive_payload con (input ++ more) output opcode size n))
  sized-Extends opcode size = elim (Bool-cases (ltb (length input) (2 + size))) [
    | inl short ↦ rw short (λ h. absurd (h refl))
    | inr long ↦
        let (n, e) = read_length_total input size 2 0 (ground arith) in
        let e' = read_length-append input more size 2 0 (ground arith) ∙ e in
        let long' : ltb (length (input ++ more)) (2 + size) ≡ false =
          ground (arith, length-append input more) in
        rw (long, long', e, e') (receive_payload-Extends opcode size n)
  ]

  receive_length-Extends :
      (opcode hint : ℕ)
      → Extends more
          (receive_length con input output opcode hint)
          (receive_length con (input ++ more) output opcode hint)
  unfolding receive_length
  receive_length-Extends opcode hint = elim (Bool-cases (ltb ws_single_byte_length hint)) [
    | inl long ↦ elim (Bool-cases (hint == ws_eight_byte_length)) [
      | inl eight ↦ rw (long, eight) (sized-Extends opcode 8)
      | inr two ↦ rw (long, two) (sized-Extends opcode 2)
    ]
    | inr single ↦ rw single (receive_payload-Extends opcode 0 hint)
  ]

  receive_opcode-Extends :
      (opcode : ℕ) (masked : Bool) (hint : ℕ)
      → Extends more
          (receive_opcode con input output opcode masked hint)
          (receive_opcode con (input ++ more) output opcode masked hint)
  unfolding receive_opcode
  receive_opcode-Extends opcode false hint = λ _. refl
  receive_opcode-Extends opcode true hint =
      elim (Bool-cases
        (opcode == ws_opcode_text || opcode == ws_opcode_ping || opcode == ws_opcode_pong)) [
          | inl known ↦ rw known (receive_length-Extends opcode hint)
          | inr other ↦ elim (Bool-cases (opcode == ws_opcode_close)) [
            | inl close ↦ rw (other, close) (λ _. refl)
            | inr unknown ↦ rw (other, unknown) (λ _. refl)
          ]
        ]

  -- However the stream was cut into reads: an answer other than "incomplete" for a read buffer
  -- is also the answer for that buffer with more bytes behind it, with the same connection and
  -- output, and those bytes stay behind the rest of the buffer.
  pub receive-Extends : Extends more (receive con input output) (receive con (input ++ more) output)
  unfolding receive
  receive-Extends = elim (Bool-cases (ltb (length input) 2)) [
    | inl short ↦ rw short (λ h. absurd (h refl))
    | inr long ↦
        let (b1, e1) = read_of_le input 0 (ground arith) in
        let (b2, e2) = read_of_le input 1 (ground arith) in
        let e1' = read-append input more 0 (ground arith) ∙ e1 in
        let e2' = read-append input more 1 (ground arith) ∙ e2 in
        let long' : ltb (length (input ++ more)) 2 ≡ false =
          ground (arith, length-append input more) in
        rw (long, long', e1, e2, e1', e2') (receive_opcode-Extends _ _ _)
  ]
