-- ===== src/Login/Slots.antt =====
-- The queue of login requests has its limit, and no connection is in it twice.
use fserv.Prelude.{
  ℕ, ◌+◌, ◌≤◌, ◌≡◌, refl, Bool, true, false, Bool-cases, inl, inr, List, [], ◌∷◌, ◌++◌, ◌==◌, leb,
  if◌then◌else◌, arith, length, length-append,
}
use fserv.Prelude.Maps.{nat_eq, member, IsSimple}
use fserv.Login.{
  LoginRequest, LoginReply, Queues, Timespec, max_login_slots, add_request, get_request,
}

abbrev pub senders : List LoginRequest → List ℕ
senders [] = []
senders (r ∷ rs) = r.connection ∷ senders rs

-- Who has a request in the queue satisfies `P`.
abbrev pub EachSender : (ℕ → Type 0) → List LoginRequest → Type 0
EachSender P [] = Unit {0}
EachSender P (r ∷ rs) = P r.connection × EachSender P rs

pub record IsQueue (P : ℕ → Type 0) (q : Queues) : Type 0 where
  pub bounded : length q.requests ≤ max_login_slots
  pub once : IsSimple (senders q.requests)
  pub each : EachSender P q.requests

pub EachSender-weaken :
    (P Q : ℕ → Type 0) (rs : List LoginRequest)
    → ((k : ℕ) → P k → Q k)
    → EachSender P rs
    → EachSender Q rs
EachSender-weaken P Q [] f v = tt
EachSender-weaken P Q (r ∷ rs) f v = (f r.connection v.0, EachSender-weaken P Q rs f v.1)

senders-append :
    (rs : List LoginRequest) (r : LoginRequest) (k : ℕ)
    → member k (senders (rs ++ r ∷ []))
      ≡ (if r.connection == k then true else member k (senders rs))
unfolding member
senders-append [] r k = refl
senders-append (s ∷ rs) r k = ground (arith, senders-append rs r k)

once-append :
    (rs : List LoginRequest) (r : LoginRequest)
    → IsSimple (senders rs)
    → member r.connection (senders rs) ≡ false
    → IsSimple (senders (rs ++ r ∷ []))
unfolding member
once-append [] r s out = (refl, tt)
once-append (x ∷ rs) r s out =
    (ground (arith, senders-append rs r x.connection, s.0), once-append rs r s.1 (ground arith))

each-append :
    (P : ℕ → Type 0) (rs : List LoginRequest) (r : LoginRequest)
    → EachSender P rs
    → P r.connection
    → EachSender P (rs ++ r ∷ [])
each-append P [] r v p = (p, tt)
each-append P (x ∷ rs) r v p = (v.0, each-append P rs r v.1 p)

-- A new sender's request keeps the queue, whether or not there is room for it.
pub add_request-IsQueue :
    (P : ℕ → Type 0) (timed_lock : Timespec → Bool) (now : Timespec) (r : LoginRequest) (q : Queues)
    → member r.connection (senders q.requests) ≡ false
    → P r.connection
    → IsQueue P q
    → IsQueue P (add_request timed_lock now r q).0
unfolding add_request
add_request-IsQueue P timed_lock now r q out p v =
    elim (Bool-cases (timed_lock (record now { nsec = now.nsec + 250_000_000 }))) [
      | inl l ↦ elim (Bool-cases (leb max_login_slots (length q.requests))) [
        | inl full ↦ rw l (rw full v)
        | inr room ↦ rw l (
            rw room (record {
              bounded = ground (arith, length-append q.requests (r ∷ []));
              once = once-append q.requests r v.once out;
              each = each-append P q.requests r v.each p;
            }))
      ]
      | inr l ↦ rw l v
    ]

pub get_request-IsQueue : (P : ℕ → Type 0) (q : Queues) → IsQueue P q → IsQueue P (get_request q).0
unfolding get_request
get_request-IsQueue P q v = taken q.requests q.replies v
  where
    taken :
        (rs : List LoginRequest) (replies : List LoginReply)
        → IsQueue P (record { requests = rs; replies = replies })
        → IsQueue P (get_request (record { requests = rs; replies = replies })).0
    taken [] replies w = w
    taken (r ∷ rs) replies w = record {
      bounded = ground (arith, w.bounded);
      once = w.once.1;
      each = w.each.1;
    }
