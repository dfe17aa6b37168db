-- ===== src/Login.antt =====
-- src/login_evhttp.cpp and src/login_common.hpp: the two queues between the server and the thread
-- that asks the login service. Each operation runs under its mutex, so a history of the threads
-- is a sequence of operations.
pub mod Slots
use fserv.Prelude.{
  ℕ, ◌+◌, Bool, true, false, Option, none, some, List, [], ◌∷◌, ◌++◌, leb, if◌then◌else◌, length,
  ◌&&◌, ◌==◌,
}
use fserv.Prelude.Bytes.{Bytes, codes}

-- `LoginRequest`; its method is always the ticket.
pub record LoginRequest : Type 0 where
  pub connection : ℕ
  pub character_name : Bytes
  pub account : Bytes
  pub ticket : Bytes
  pub client_name : Bytes
  pub client_version : Bytes

pub record LoginReply : Type 0 where
  pub connection : ℕ
  pub message : Bytes
  pub success : Bool

pub record Queues : Type 0 where
  pub requests : List LoginRequest
  pub replies : List LoginReply

abbrev pub max_login_slots : ℕ
max_login_slots = 30

-- `timespec`
pub record Timespec : Type 0 where
  pub sec : ℕ
  pub nsec : ℕ

abbrev pub login_mutex_timeout : ℕ
login_mutex_timeout = 250_000_000

-- `timed_lock deadline` says whether `pthread_mutex_timedlock` got the mutex.
unfoldable pub add_request : (Timespec → Bool) → Timespec → LoginRequest → Queues → Queues × Bool
add_request timed_lock now r q =
    let deadline = record now { nsec = now.nsec + login_mutex_timeout } in
    if timed_lock deadline
    then if leb max_login_slots (length q.requests)
      then (q, false)
      else (record q { requests = q.requests ++ r ∷ [] }, true)
    else (q, false)

unfoldable pub get_request : Queues → Queues × Option LoginRequest
get_request q = elim q.requests [ [] ↦ (q, none) | r ∷ rs ↦ (record q { requests = rs }, some r) ]

unfoldable pub add_reply : LoginReply → Queues → Queues
add_reply r q = record q { replies = q.replies ++ r ∷ [] }

unfoldable pub get_reply : Queues → Queues × Option LoginReply
get_reply q = elim q.replies [ [] ↦ (q, none) | r ∷ rs ↦ (record q { replies = rs }, some r) ]

-- What comes back from the HTTP client.
pub record HttpReply : Type 0 where
  pub connection : ℕ
  pub success : Bool
  pub status : ℕ
  pub body : Bytes

unfoldable pub response_callback : HttpReply → Queues → Queues
unfolding add_reply
response_callback reply = add_reply (record {
  connection = reply.connection;
  message = reply.body;
  success = reply.success && (reply.status == 200);
})

-- The fields that `processLogin` posts to the login service, for the connection.
unfoldable pub process_login_request : LoginRequest → ℕ × List (Bytes × Bytes)
process_login_request r = (
  r.connection,
  (codes "method", codes "ticket")
      ∷ (codes "account", r.account)
      ∷ (codes "ticket", r.ticket)
      ∷ (codes "char", r.character_name)
      ∷ (codes "client", r.client_name)
      ∷ (codes "client_version", r.client_version)
      ∷ [],
)

-- The loop of `processQueue` takes every request there is.
unfoldable pub process_requests : List LoginRequest → List (ℕ × List (Bytes × Bytes))
unfolding process_login_request
process_requests [] = []
process_requests (r ∷ rs) = process_login_request r ∷ process_requests rs

unfoldable pub process_queue : Queues → Queues × List (ℕ × List (Bytes × Bytes))
unfolding process_requests
process_queue q = (record q { requests = [] }, process_requests q.requests)
