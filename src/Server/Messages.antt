-- ===== src/Server/Messages.antt =====
-- The read callback on what a client sends: a run of text frames, and a ping.
use fserv.Prelude.{
  ℕ, suc, ◌+◌, ◌-◌, ◌≤◌, ◌≡◌, refl, ap, ◌∙◌, Bool, true, false, not, ◌||◌, inl, inr, some, List, [],
  ◌∷◌, ◌++◌, ◌==◌, arith, ltb, if◌then◌else◌, length, take, drop, is_empty,
}
use fserv.Prelude.Bytes.{Bytes, codes, eq_bytes}
use fserv.Prelude.Int.{ℤ, eq_ℤ}
use fserv.Connection.{Connection, from_string, send, set_delay_close, send_raw}
use fserv.Websocket.Frame.{send_pong}
use fserv.Websocket.Receive.{receive}
use fserv.Websocket.RoundTrip.{MaskingKey, client_frame, receive-client_frame, answer, IsDelivered}
use fserv.Websocket.{
  protocol_hybi, WebSocketResult, ws_ok, ws_error, ws_maximum_client_frame_size, ws_opcode_text,
  ws_opcode_ping,
}
use fserv.Server.Errors.{ferr_ok, ferr_requires_ident, ferr_fatal_internal}
use fserv.Server.Reading.{
  Handlers, on_con, send_error, ident_or_close, run_command, settle, handle_message, receive_from,
  read_frames, read_received,
}

-- What the loop reads of a connection's fields.
abbrev pub SameInput : Connection → Connection → Type 0
SameInput c d = (c.read_buffer ≡ d.read_buffer) × (c.protocol ≡ d.protocol)

-- The laws: the connection is what was last set, and no handler touches its read buffer or its
-- protocol, which only the read and the handshake callback do.
pub record IsHandlers {S : Type 0} (h : Handlers S) : Type 0 where
  pub con-set_con : (c : Connection) (s : S) → h.con (h.set_con c s) ≡ c
  pub ident_keeps : (p : Bytes) (s : S) → SameInput (h.con (h.ident_command p s).0) (h.con s)
  pub search_keeps : (p : Bytes) (s : S) → SameInput (h.con (h.search_command p s).0) (h.con s)
  pub debug_keeps : (p : Bytes) (s : S) → SameInput (h.con (h.debug_command p s).0) (h.con s)
  pub lua_keeps : (e p : Bytes) (s : S) → SameInput (h.con (h.run_lua_event e p s).0) (h.con s)

module _ {S : Type 0} (h : Handlers S) (laws : IsHandlers h) where
  abbrev Kept : S → S → Type 0
  Kept s t = SameInput (h.con s) (h.con t)

  Kept-trans : {s t u : S} → Kept s t → Kept t u → Kept s u
  Kept-trans a b = (a.0 ∙ b.0, a.1 ∙ b.1)

  send-SameInput : (m : Bytes) (c : Connection) → SameInput (send m c).0 c
  unfolding send
  send-SameInput m c = ground arith

  on_con-Kept :
      (f : Connection → Connection) (s : S)
      → ((c : Connection) → SameInput (f c) c)
      → Kept (on_con h f s) s
  on_con-Kept f s k = rw (laws.con-set_con (f (h.con s)) s) (k (h.con s))

  Kept-if :
      (b : Bool) (x y : S × ℤ) (s : S) → Kept x.0 s → Kept y.0 s → Kept (if b then x else y).0 s
  Kept-if true x y s k l = k
  Kept-if false x y s k l = l

  set_delay_close-Kept : (s : S) → Kept (on_con h set_delay_close s) s
  unfolding set_delay_close
  set_delay_close-Kept s = on_con-Kept set_delay_close s (λ c. (refl, refl))

  ident_or_close-Kept : (payload : Bytes) (s : S) → Kept (ident_or_close h payload s).0 s
  unfolding ident_or_close
  ident_or_close-Kept payload s =
      by_code (eq_ℤ (h.ident_command payload s).1 ferr_ok) (h.ident_command payload s).0
        (laws.ident_keeps payload s)
    where
      by_code : (b : Bool) (t : S) → Kept t s → Kept (if b then t else on_con h set_delay_close t) s
      by_code true t k = k
      by_code false t k = Kept-trans (set_delay_close-Kept t) k

  run_command-Kept : (command payload : Bytes) (s : S) → Kept (run_command h command payload s).0 s
  unfolding run_command
  run_command-Kept command payload s =
      let lua = laws.lua_keeps command payload s in
      let is : Bytes → Bool = eq_bytes command in
      let r6 : S × ℤ =
        if not (h.con s).identified
        then (s, ferr_requires_ident)
        else h.run_lua_event command payload s in
      let r5 : S × ℤ = if is (codes "VAR") then h.run_lua_event command payload s else r6 in
      let r4 : S × ℤ = if is (codes "ZZZ") then h.debug_command payload s else r5 in
      let r3 : S × ℤ = if is (codes "FKS") then h.search_command payload s else r4 in
      let r2 : S × ℤ = if is (codes "IDN") then ident_or_close h payload s else r3 in
      let k6 : Kept r6.0 s =
        Kept-if (not (h.con s).identified) (s, ferr_requires_ident)
          (h.run_lua_event command payload s) s (refl, refl) lua in
      let k5 : Kept r5.0 s =
        Kept-if (is (codes "VAR")) (h.run_lua_event command payload s) r6 s lua k6 in
      let k4 : Kept r4.0 s =
        Kept-if (is (codes "ZZZ")) (h.debug_command payload s) r5 s (laws.debug_keeps payload s)
          k5 in
      let k3 : Kept r3.0 s =
        Kept-if (is (codes "FKS")) (h.search_command payload s) r4 s (laws.search_keeps payload s)
          k4 in
      let k2 : Kept r2.0 s =
        Kept-if (is (codes "IDN")) (ident_or_close h payload s) r3 s (ident_or_close-Kept payload s)
          k3 in
      Kept-if (is (codes "PIN")) (s, ferr_ok) r2 s (refl, refl) k2

  send_error-Kept : (code : ℤ) (s : S) → Kept (send_error h code s) s
  unfolding send_error
  send_error-Kept code s =
      let m = from_string (h.error_message code) in
      on_con-Kept (λ c. (send m c).0) s (send-SameInput m)

  settle-Kept : (s : S) (code : ℤ) → Kept (settle h (s, code)) s
  unfolding settle
  settle-Kept s code =
      by_code (eq_ℤ code ferr_requires_ident || eq_ℤ code ferr_fatal_internal)
        (not (eq_ℤ code ferr_ok))
    where
      by_code :
          (a b : Bool)
          → Kept
              (if a
                then send_error h code (on_con h set_delay_close s)
                else if b
                then send_error h code s
                else s)
              s
      by_code true b = Kept-trans (send_error-Kept code _) (set_delay_close-Kept s)
      by_code false true = send_error-Kept code s
      by_code false false = (refl, refl)

  handle_message-Kept : (m : Bytes) (s : S) → Kept (handle_message h m s) s
  unfolding handle_message
  handle_message-Kept m s =
      let r = run_command h (take 3 m) (if ltb 4 (length m) then drop 4 m else []) s in
      Kept-trans (settle-Kept r.0 r.1) (run_command-Kept (take 3 m) _ s)

-- A text message with the key that the client masked it with.
pub record Sent : Type 0 where
  pub key : MaskingKey
  pub text : Bytes

abbrev pub IsSent : List Sent → Type 0
IsSent [] = Unit {0}
IsSent (m ∷ ms) = (3 ≤ length m.text) × (length m.text ≤ ws_maximum_client_frame_size) × IsSent ms

abbrev pub frames : List Sent → Bytes
frames [] = []
frames (m ∷ ms) = client_frame ws_opcode_text m.key m.text ++ frames ms

-- What `recv` leaves.
abbrev pub took : ℤ → Bytes → Connection → Connection
took now bytes c = record c { last_activity = now; read_buffer = c.read_buffer ++ bytes }

module _ {S : Type 0} (h : Handlers S) where
  -- The read buffer is what is left behind the frame when its message is handled.
  abbrev pub set_buffer : Bytes → S → S
  set_buffer rest = on_con h (λ c. record c { read_buffer = rest })

  -- The messages handled one after the other.
  abbrev pub handle_all : List Sent → S → S
  handle_all [] s = s
  handle_all (m ∷ ms) s = handle_all ms (handle_message h m.text (set_buffer (frames ms) s))

  abbrev pub filled : ℤ → Bytes → S → S
  filled now bytes = on_con h (took now bytes)

module _ {S : Type 0} (h : Handlers S) (laws : IsHandlers h) where
  -- One call of the frame reader, on a frame in front of `rest`.
  received :
      (opcode : ℕ) (k : MaskingKey) (p rest message : Bytes) (ret : WebSocketResult) (s : S)
      → IsDelivered opcode
      → length p ≤ ws_maximum_client_frame_size
      → (h.con s).read_buffer ≡ client_frame opcode k p ++ rest
      → (h.con s).protocol ≡ protocol_hybi
      → let r = answer (h.con s) message opcode p rest in
        receive_from h (h.con s).protocol ret message s
        ≡ some (r.result, r.output, h.set_con (record r.con { read_buffer = r.input }) s)
  unfolding receive_from
  received opcode k p rest message ret s known small e hp =
      let r : receive (h.con s) (h.con s).read_buffer message
          ≡ some (answer (h.con s) message opcode p rest) =
        ap (λ b. receive (h.con s) b message) e
        ∙ receive-client_frame (h.con s) message k p rest opcode known small in
      ap (λ v. receive_from h v ret message s) hp ∙ rw r

  read_frames-frames :
      (extra : ℕ) (ms : List Sent) (ret : WebSocketResult) (message : Bytes) (s : S)
      → IsSent ms
      → (h.con s).read_buffer ≡ frames ms
      → (h.con s).protocol ≡ protocol_hybi
      → read_frames h (length ms + suc extra) ret message s ≡ some (handle_all h ms s)
  unfolding read_frames
  read_frames-frames extra [] ret message s ok e hp =
      let z : 0 + suc extra ≡ suc extra = omega arith in
      let b : (extra == 0 || true) ≡ true = ground arith in rw (z, read_frames, e) (rw b)
  read_frames-frames extra (m ∷ ms) ret message s ok e hp =
      let rest : Bytes = frames ms in
      let s' = handle_message h m.text (set_buffer h rest s) in
      let z : suc (length ms) + suc extra ≡ suc (length ms + suc extra) = omega arith in
      let more : length ms + suc extra == 0 ≡ false = ground arith in
      let r = received ws_opcode_text m.key m.text rest message ret s (inl refl) ok.1 e hp in
      let long : ltb (length m.text) 3 ≡ false = ground (arith, ok.0) in
      let k = handle_message-Kept h laws m.text (set_buffer h rest s) in
      let c = laws.con-set_con _ s in
      let full : is_empty (h.con s).read_buffer ≡ false = ap is_empty e in
      rw (z, read_frames, more, full, r, long)
        (read_frames-frames extra ms ws_ok m.text s' ok.2 (k.0 ∙ ap (λ x. x.read_buffer) c)
          (k.1 ∙ ap (λ x. x.protocol) c ∙ hp))

  -- A connection with an empty read buffer that has been upgraded gets, in one read, at most nine
  -- masked text frames, each of 3 to 0x80000 bytes: every message is handled, in order, each in
  -- the state that the one before left, and the read buffer that it sees holds the frames behind
  -- it. (The handlers leave the read buffer and the protocol alone.)
  pub read_received-frames :
      (now : ℤ) (ms : List Sent) (s : S)
      → IsSent ms
      → length ms ≤ 9
      → (h.con s).read_buffer ≡ []
      → (h.con s).protocol ≡ protocol_hybi
      → read_received h now (frames ms) s ≡ some (handle_all h ms (filled h now (frames ms) s))
  unfolding read_received
  read_received-frames now ms s ok few e hp =
      let s1 : S = filled h now (frames ms) s in
      let c = laws.con-set_con (took now (frames ms) (h.con s)) s in
      let z : 10 ≡ length ms + suc (9 - length ms) = omega (arith, few) in
      ap (λ n. read_frames h n ws_error [] s1) z
      ∙ read_frames-frames (9 - length ms) ms ws_error [] s1 ok
          (ap (λ x. x.read_buffer) c ∙ ap (λ b. b ++ frames ms) e) (ap (λ x. x.protocol) c ∙ hp)

  read_frames-ping :
      (n : ℕ) (k : MaskingKey) (p rest : Bytes) (s : S)
      → length p ≤ ws_maximum_client_frame_size
      → (h.con s).read_buffer ≡ client_frame ws_opcode_ping k p ++ rest
      → (h.con s).protocol ≡ protocol_hybi
      → read_frames h (suc (suc n)) ws_error [] s
        ≡ some (h.set_con (record (send_raw (send_pong p) (h.con s)).0 { read_buffer = rest }) s)
  unfolding read_frames
  read_frames-ping n k p rest s small e hp =
      let full : is_empty (h.con s).read_buffer ≡ false = ap is_empty e in
      let r = received ws_opcode_ping k p rest [] ws_error s (inr (inl refl)) small e hp in
      let more : suc n == 0 ≡ false = ground arith in rw (read_frames, more, full, r) refl

  -- A read that brings one masked ping and more bytes behind it to an upgraded connection with an
  -- empty read buffer: the ping is answered with a pong of its payload, the callback ends, and
  -- the bytes behind the ping stay in the read buffer whether or not they hold whole messages.
  pub ping_stalls :
      (now : ℤ) (k : MaskingKey) (p rest : Bytes) (s : S)
      → length p ≤ ws_maximum_client_frame_size
      → (h.con s).read_buffer ≡ []
      → (h.con s).protocol ≡ protocol_hybi
      → let s1 = filled h now (client_frame ws_opcode_ping k p ++ rest) s in
        read_received h now (client_frame ws_opcode_ping k p ++ rest) s
        ≡ some (h.set_con (record (send_raw (send_pong p) (h.con s1)).0 { read_buffer = rest }) s1)
  unfolding read_received
  ping_stalls now k p rest s small e hp =
      let bytes : Bytes = client_frame ws_opcode_ping k p ++ rest in
      let s1 : S = filled h now bytes s in
      let c = laws.con-set_con (took now bytes (h.con s)) s in
      let b : (h.con s1).read_buffer ≡ bytes = ap (λ x. x.read_buffer) c ∙ ap (λ a. a ++ bytes) e in
      read_frames-ping 8 k p rest s1 small b (ap (λ x. x.protocol) c ∙ hp)
