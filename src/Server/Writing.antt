-- ===== src/Server/Writing.antt =====
-- `Server::connectionWriteCallback` of src/server.cpp.
use fserv.Prelude.{
  ℕ, ◌+◌, ◌-◌, false, not, List, [], ◌∷◌, ◌++◌, ◌==◌, if◌then◌else◌, length, take, drop,
}
use fserv.Prelude.Bytes.{Bytes}
use fserv.Connection.{Connection}

-- What `send(2)` returns: it would block, it failed, or the number of bytes taken.
pub data SendReturn : Type 0 where
  again failed : SendReturn
  sent : ℕ → SendReturn

pub data Ending : Type 0 where
  drained waiting broken : Ending

-- The state behind the loop, and the bytes that the socket took.
pub record Written : Type 0 where
  pub queue : List Bytes
  pub position : ℕ
  pub ending : Ending
  pub taken : Bytes

-- The loop over the write queue. `socket i len` is the answer to call `i` with `len` bytes.
unfoldable pub write_loop : (ℕ → ℕ → SendReturn) → ℕ → List Bytes → ℕ → Written
write_loop socket i [] position = record {
  queue = [];
  position = position;
  ending = drained;
  taken = [];
}
write_loop socket i (message ∷ queue) position =
    let len = length message - position in
    let rest = write_loop socket (i + 1) queue 0 in
    let stop : Ending → ℕ → Bytes → Written =
      λ e at t. record { queue = message ∷ queue; position = at; ending = e; taken = t } in
    elim (socket i len) [
      | again ↦ stop waiting position []
      | failed ↦ stop broken position []
      | sent n ↦
          if n == 0
          then stop broken position []
          else if not (n == len)
          then stop waiting (position + n) (take n (drop position message))
          else record {
            queue = rest.queue;
            position = rest.position;
            ending = rest.ending;
            taken = drop position message ++ rest.taken;
          }
    ]

-- The branch for `EV_WRITE`, with the bytes that the socket took. `shut_down` is
-- `prepareShutdownConnection` and the `close` of the socket.
unfoldable pub write_callback :
    (Connection → Connection) → (ℕ → ℕ → SendReturn) → Connection → Connection × Bytes
unfolding write_loop
write_callback shut_down socket con =
    let w = write_loop socket 0 con.write_queue con.write_position in
    let con' = record con { write_queue = w.queue; write_position = w.position } in
    if con.closed then (con, []) else elim w.ending [
      | drained ↦ (record con' { write_started = false }, w.taken)
      | waiting ↦ (con', w.taken)
      | broken ↦ (shut_down con', w.taken)
    ]
