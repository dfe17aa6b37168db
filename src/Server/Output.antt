-- ===== src/Server/Output.antt =====
-- What a client reads is what the server queued, in order, however the socket cut it.
use fserv.Prelude.{
  ℕ, zero, suc, ◌+◌, ◌-◌, ◌≤◌, ◌≡◌, refl, ap, sym, ◌∙◌, Bool, true, false, Bool-cases, inl, inr,
  List, [], ◌∷◌, ◌++◌, ◌==◌, arith, if◌then◌else◌, length, take, drop, append_assoc, append-nil,
  take-append-drop,
}
use fserv.Prelude.Bytes.{Bytes}
use fserv.Connection.{Connection, send, send_raw}
use fserv.Server.Writing.{
  SendReturn, again, failed, sent, Ending, drained, waiting, broken, Written, write_loop,
  write_callback,
}

abbrev pub flat : List Bytes → Bytes
flat [] = []
flat (m ∷ q) = m ++ flat q

-- The bytes still to go.
abbrev pub pending : List Bytes → ℕ → Bytes
pending [] position = []
pending (m ∷ q) position = drop position m ++ flat q

abbrev pub IsOffset : List Bytes → ℕ → Type 0
IsOffset [] position = position ≡ 0
IsOffset (m ∷ q) position = position ≤ length m

-- `send(2)` takes at most what it is given.
abbrev pub IsSocket : (ℕ → ℕ → SendReturn) → Type 0
IsSocket socket = (i len n : ℕ) → socket i len ≡ sent n → n ≤ len

flat-pending : (q : List Bytes) → pending q 0 ≡ flat q
flat-pending [] = refl
flat-pending (m ∷ q) = refl

IsOffset-zero : (q : List Bytes) → IsOffset q 0
IsOffset-zero [] = refl
IsOffset-zero (m ∷ q) = omega arith

drop-drop : (m : Bytes) (i j : ℕ) → drop (i + j) m ≡ drop j (drop i m)
drop-drop m zero j = let e : zero + j ≡ j = omega arith in rw e
drop-drop [] (suc i) j = nothing (suc i + j) ∙ sym (nothing j)
  where
    nothing : (n : ℕ) → drop {A = ℕ} n [] ≡ []
    nothing zero = refl
    nothing (suc n) = refl
drop-drop (b ∷ m) (suc i) j =
    let e : suc i + j ≡ suc (i + j) = omega arith in rw e (drop-drop m i j)

abbrev Keeps : List Bytes → ℕ → Written → Type 0
Keeps queue position w =
    (w.taken ++ pending w.queue w.position ≡ pending queue position) × IsOffset w.queue w.position

write_loop-Keeps :
    (socket : ℕ → ℕ → SendReturn) (i : ℕ) (queue : List Bytes) (position : ℕ)
    → IsSocket socket
    → IsOffset queue position
    → Keeps queue position (write_loop socket i queue position)
unfolding write_loop
write_loop-Keeps socket i [] position ok h = (refl, h)
write_loop-Keeps socket i (m ∷ q) position ok h =
    by_answer (socket i (length m - position)) refl
      (write_loop-Keeps socket (i + 1) q 0 ok (IsOffset-zero q))
  where
    by_answer :
        (r : SendReturn)
        → socket i (length m - position) ≡ r
        → Keeps q 0 (write_loop socket (i + 1) q 0)
        → Keeps (m ∷ q) position (write_loop socket i (m ∷ q) position)
    by_answer again e ih = rw (e, write_loop) (refl, h)
    by_answer failed e ih = rw (e, write_loop) (refl, h)
    by_answer (sent n) e ih =
        let fits = ok i _ n e in
        elim (Bool-cases (n == 0)) [
          | inl z ↦ rw (e, write_loop, z) (refl, h)
          | inr nz ↦ elim (Bool-cases (n == length m - position)) [
            | inl full ↦
                rw (e, write_loop, nz, full)
                  (
                    append_assoc (drop position m) _ _
                        ∙ ap (◌++◌ (drop position m)) (ih.0 ∙ flat-pending q),
                    ih.1,
                  )
            | inr part ↦
                rw (e, write_loop, nz, part)
                  (
                    sym (append_assoc (take n (drop position m)) _ (flat q))
                        ∙ ap (λ t. t ++ flat q)
                            (ap (◌++◌ (take n (drop position m))) (drop-drop m position n)
                              ∙ take-append-drop n (drop position m)),
                    omega arith,
                  )
          ]
        ]

-- A connection with the bytes that were accepted for it and those that its socket took.
pub record Port : Type 0 where
  pub con : Connection
  pub accepted : Bytes
  pub delivered : Bytes

pub data OutEvent : Type 0 where
  queues queues_raw : Bytes → OutEvent
  flushes : (ℕ → ℕ → SendReturn) → OutEvent

abbrev IsEvent : OutEvent → Type 0
IsEvent (queues m) = Unit {0}
IsEvent (queues_raw m) = Unit {0}
IsEvent (flushes socket) = IsSocket socket

abbrev pub IsHistory : List OutEvent → Type 0
IsHistory [] = Unit {0}
IsHistory (e ∷ es) = IsEvent e × IsHistory es

abbrev accept_if : Bytes → Port → Connection × Bool → Port
accept_if m p (c, done) = record p {
  con = c;
  accepted = if done then p.accepted ++ m else p.accepted;
}

module _ (shut_down : Connection → Connection) where
  pub step : OutEvent → Port → Port
  step (queues m) p = accept_if m p (send m p.con)
  step (queues_raw m) p = accept_if m p (send_raw m p.con)
  step (flushes socket) p =
      let (c, taken) = write_callback shut_down socket p.con in
      record p { con = c; delivered = p.delivered ++ taken }

  pub run : List OutEvent → Port → Port
  run [] p = p
  run (e ∷ es) p = run es (step e p)

-- What was taken begins what was accepted; while the connection is open the rest is pending.
pub record IsFlowing (p : Port) : Type 0 where
  pub rest : Bytes
  pub stream : p.delivered ++ rest ≡ p.accepted
  pub open_rest :
      p.con.closed ≡ false
      → (rest ≡ pending p.con.write_queue p.con.write_position)
        × IsOffset p.con.write_queue p.con.write_position

pending-append :
    (q : List Bytes) (position : ℕ) (m : Bytes)
    → IsOffset q position
    → (pending (q ++ m ∷ []) position ≡ pending q position ++ m) × IsOffset (q ++ m ∷ []) position
pending-append [] position m h = rw h (append-nil m, omega arith)
pending-append (b ∷ q) position m h = (
  ap (◌++◌ (drop position b)) (flat-append q) ∙ sym (append_assoc (drop position b) (flat q) m),
  h,
)
  where
    flat-append : (q : List Bytes) → flat (q ++ m ∷ []) ≡ flat q ++ m
    flat-append [] = append-nil m
    flat-append (b ∷ q) = ap (◌++◌ b) (flat-append q) ∙ sym (append_assoc b (flat q) m)

abbrev push : Bytes → Connection → Connection
push m con = record con { write_queue = con.write_queue ++ m ∷ []; write_started = true }

pushed :
    (m : Bytes) (p : Port)
    → p.con.closed ≡ false
    → IsFlowing p
    → IsFlowing (accept_if m p (push m p.con, true))
pushed m p e v =
    let (r, o) = v.open_rest e in
    let (a, o') = pending-append p.con.write_queue p.con.write_position m o in
    record {
      rest = v.rest ++ m;
      stream = sym (append_assoc p.delivered v.rest m) ∙ ap (λ t. t ++ m) v.stream;
      open_rest = λ _. (ap (λ t. t ++ m) r ∙ sym a, o');
    }

sends_if :
    (m : Bytes) (p : Port) (refused : Bool)
    → (refused ≡ false → p.con.closed ≡ false)
    → IsFlowing p
    → IsFlowing (accept_if m p (if refused then (p.con, false) else (push m p.con, true)))
sends_if m p true h v = record { rest = v.rest; stream = v.stream; open_rest = v.open_rest }
sends_if m p false h v = pushed m p (h refl) v

module _ (shut_down : Connection → Connection)
    (closes : (c : Connection) → (shut_down c).closed ≡ true) where
  abbrev after : Connection → Written → Ending → Connection × Bytes
  after con w drained = (
    record con { write_queue = w.queue; write_position = w.position; write_started = false },
    w.taken,
  )
  after con w waiting = (record con { write_queue = w.queue; write_position = w.position }, w.taken)
  after con w broken =
      (shut_down (record con { write_queue = w.queue; write_position = w.position }), w.taken)

  abbrev took : Port → Connection × Bytes → Port
  took p (c, taken) = record p { con = c; delivered = p.delivered ++ taken }

  wrote :
      (p : Port) (w : Written) (ending : Ending)
      → p.con.closed ≡ false
      → Keeps p.con.write_queue p.con.write_position w
      → IsFlowing p
      → IsFlowing (took p (after p.con w ending))
  wrote p w ending e k v = by_ending ending
    where
      stream : (p.delivered ++ w.taken) ++ pending w.queue w.position ≡ p.accepted
      stream =
          append_assoc p.delivered w.taken _
          ∙ ap (◌++◌ p.delivered) (k.0 ∙ sym (v.open_rest e).0)
          ∙ v.stream

      by_ending : (ending : Ending) → IsFlowing (took p (after p.con w ending))
      by_ending drained = record {
        rest = pending w.queue w.position;
        stream = stream;
        open_rest = λ _. (refl, k.1);
      }
      by_ending waiting = record {
        rest = pending w.queue w.position;
        stream = stream;
        open_rest = λ _. (refl, k.1);
      }
      by_ending broken = record {
        rest = pending w.queue w.position;
        stream = stream;
        open_rest = λ h. absurd (ground (arith, closes (after p.con w waiting).0));
      }

  flushed :
      (p : Port) (socket : ℕ → ℕ → SendReturn)
      → IsSocket socket
      → IsFlowing p
      → IsFlowing (took p (write_callback shut_down socket p.con))
  unfolding write_callback
  flushed p socket ok v = by_closed p.con.closed refl
    where
      w : Written
      w = write_loop socket 0 p.con.write_queue p.con.write_position

      by_closed :
          (closed : Bool)
          → p.con.closed ≡ closed
          → IsFlowing (took p (if closed then (p.con, []) else after p.con w w.ending))
      by_closed true e = record {
        rest = v.rest;
        stream = ap (λ t. t ++ v.rest) (append-nil p.delivered) ∙ v.stream;
        open_rest = v.open_rest;
      }
      by_closed false e =
          wrote p w w.ending e
            (write_loop-Keeps socket 0 p.con.write_queue p.con.write_position ok (v.open_rest e).1)
            v

  step-IsFlowing :
      (e : OutEvent) (p : Port) → IsEvent e → IsFlowing p → IsFlowing (step shut_down e p)
  unfolding step send send_raw
  step-IsFlowing (queues m) p ok v = sends_if m p _ (ground arith) v
  step-IsFlowing (queues_raw m) p ok v = sends_if m p _ (λ e. e) v
  step-IsFlowing (flushes socket) p ok v = flushed p socket ok v

  -- Over any history of messages queued and write callbacks, on sockets that take at most what
  -- they are given, and whatever the shutdown does beside marking the connection closed: the
  -- bytes that the socket took are a beginning of the bytes that were accepted, in order, and
  -- while the connection is open the rest of those is exactly what is pending in the queue.
  pub run-IsFlowing :
      (es : List OutEvent) (p : Port) → IsHistory es → IsFlowing p → IsFlowing (run shut_down es p)
  unfolding run
  run-IsFlowing [] p ok v = v
  run-IsFlowing (e ∷ es) p ok v =
      run-IsFlowing es (step shut_down e p) ok.1 (step-IsFlowing e p ok.0 v)
