-- ===== src/NativeCommand/Ident.antt =====
-- Logging in: who has a request in the queue, and what each answer of the command means.
use fserv.Prelude.{
  ℕ, ◌+◌, ◌≡◌, ◌⊎◌, refl, ap, sym, ◌∙◌, Bool, true, false, ◌||◌, Bool-cases, inl, inr, Option, none,
  some, List, [], ◌∷◌, ◌++◌, ◌>>=◌, arith, ◌==◌, ==_iff, leb, length,
}
use fserv.Prelude.Bytes.{Bytes, eq_bytes, codes, c_str}
use fserv.Prelude.Int.{ℤ, pos, leb_ℤ, eq_ℤ}
use fserv.Prelude.Maps.{nat_eq, member}
use fserv.Json.{Jansson, string_at}
use fserv.Login.{LoginRequest, Timespec, max_login_slots, add_request, get_request}
use fserv.Login.Slots.{
  senders, EachSender, IsQueue, EachSender-weaken, add_request-IsQueue, get_request-IsQueue,
}
use fserv.Server.Errors.{ferr_ok}
use fserv.NativeCommand.{
  Machine, con_of, change, ticket_request, read_method, read_ident, queue_login, ident_command,
}

-- The queue is within its limit, no connection is in it twice, and each one in it has started to
-- log in.
abbrev pub IsLogin : Machine → Type 0
IsLogin m = IsQueue (λ k. (con_of k m).auth_started ≡ true) m.login

pub data LoginEvent : Type 0 where
  identifies : Timespec → ℕ → Bytes → LoginEvent
  takes : LoginEvent

abbrev IsFrom : ℕ → Option LoginRequest → Type 0
IsFrom k none = Unit {0}
IsFrom k (some r) = r.connection ≡ k

bind-IsFrom :
    {A : Type 0} (k : ℕ) (o : Option A) (f : A → Option LoginRequest)
    → ((a : A) → IsFrom k (f a))
    → IsFrom k (o >>= f)
bind-IsFrom k none f h = tt
bind-IsFrom k (some a) f h = h a

module _ {J : Type 0} (j : Jansson J) where
  ticket_request-IsFrom : (k : ℕ) (top : J) → IsFrom k (ticket_request j k top)
  unfolding ticket_request
  ticket_request-IsFrom k top = bind-IsFrom k (string_at j (codes "account") top) _ (λ a.
      bind-IsFrom k (string_at j (codes "ticket") top) _ (λ b.
        bind-IsFrom k (string_at j (codes "character") top) _ (λ c.
          bind-IsFrom k (string_at j (codes "cname") top) _
            (λ d. bind-IsFrom k (string_at j (codes "cversion") top) _ (λ e. refl)))))

  read_method-IsFrom : (k : ℕ) (top : J) (o : Option Bytes) → IsFrom k (read_method j k top o).1
  unfolding read_method
  read_method-IsFrom k top none = tt
  read_method-IsFrom k top (some method) = elim (Bool-cases (eq_bytes method (codes "ticket"))) [
    | inl e ↦ rw e (ticket_request-IsFrom k top)
    | inr e ↦ rw e tt
  ]

  read_ident-IsFrom : (k : ℕ) (o : Option J) → IsFrom k (read_ident j k o).1
  unfolding read_ident
  read_ident-IsFrom k none = tt
  read_ident-IsFrom k (some top) = read_method-IsFrom k top (string_at j (codes "method") top)

-- Marking the sender lets every older request stand.
change-IsLogin :
    (k : ℕ) (m : Machine) → IsLogin m → IsLogin (change k (λ c. record c { auth_started = true }) m)
change-IsLogin k m v = record {
  bounded = v.bounded;
  once = v.once;
  each =
      EachSender-weaken (λ i. (con_of i m).auth_started ≡ true) _ m.login.requests
        (λ i started. elim (Bool-cases (k == i)) [ inl e ↦ rw e refl | inr e ↦ rw e started ])
        v.each;
}

fresh_sender :
    (k : ℕ) (m : Machine)
    → EachSender (λ i. (con_of i m).auth_started ≡ true) m.login.requests
    → (con_of k m).auth_started ≡ false
    → member k (senders m.login.requests) ≡ false
unfolding member
fresh_sender k m v started = out m.login.requests v
  where
    out :
        (rs : List LoginRequest)
        → EachSender (λ i. (con_of i m).auth_started ≡ true) rs
        → member k (senders rs) ≡ false
    out [] w = refl
    out (r ∷ rs) w = elim (Bool-cases (r.connection == k)) [
      | inl e ↦
          let here = ap (λ i. (con_of i m).auth_started) ((==_iff r.connection k).0 e) in
          let no : false ≡ true = sym (here ∙ started) ∙ w.0 in cc
      | inr e ↦ rw e (out rs w.1)
    ]

queue_login-IsLogin :
    (timed_lock : Timespec → Bool) (clock : Timespec) (k : ℕ) (r : ℤ × Option LoginRequest)
    (m : Machine)
    → IsFrom k r.1
    → member k (senders m.login.requests) ≡ false
    → (con_of k m).auth_started ≡ true
    → IsLogin m
    → IsLogin (queue_login timed_lock clock r m).0
unfolding queue_login
queue_login-IsLogin timed_lock clock k (error, none) m f out started v = v
queue_login-IsLogin timed_lock clock k (error, some r) m f out started v =
    add_request-IsQueue (λ i. (con_of i m).auth_started ≡ true) timed_lock clock r m.login
      (ap (λ i. member i (senders m.login.requests)) f ∙ out)
      (ap (λ i. (con_of i m).auth_started) f ∙ started) v

-- A request from `k`, or an error.
abbrev IsReading : ℕ → ℤ × Option LoginRequest → Type 0
IsReading k r = (eq_ℤ r.0 ferr_ok ≡ false) × IsFrom k r.1

read_ident-IsReading :
    {J : Type 0} (j : Jansson J) (k : ℕ) (o : Option J) → IsReading k (read_ident j k o)
unfolding read_ident read_method
read_ident-IsReading j k none = (refl, tt)
read_ident-IsReading j k (some top) =
    (code (string_at j (codes "method") top), read_ident-IsFrom j k (some top))
  where
    code : (o : Option Bytes) → eq_ℤ (read_method j k top o).0 ferr_ok ≡ false
    code none = refl
    code (some method) = elim (Bool-cases (eq_bytes method (codes "ticket"))) [
      | inl e ↦ rw e refl
      | inr e ↦ rw e refl
    ]

-- The command's result, beside the machine before it.
abbrev pub IsAnswered : ℕ → Machine → Machine × ℤ → Type 0
IsAnswered k m r =
    (eq_ℤ r.1 ferr_ok ≡ true)
      × ((req : LoginRequest) × (req.connection ≡ k)
          × (r.0.login.requests ≡ m.login.requests ++ req ∷ [])
          × (r.0.login.replies ≡ m.login.replies))
    ⊎ (eq_ℤ r.1 ferr_ok ≡ false) × (r.0.login ≡ m.login)

queue_login-IsAnswered :
    (timed_lock : Timespec → Bool) (clock : Timespec) (k : ℕ) (r : ℤ × Option LoginRequest)
    (m m' : Machine)
    → IsReading k r
    → m'.login ≡ m.login
    → IsAnswered k m (queue_login timed_lock clock r m')
unfolding queue_login add_request
queue_login-IsAnswered timed_lock clock k (error, none) m m' f same = inr (f.0, same)
queue_login-IsAnswered timed_lock clock k (error, some r) m m' f same =
    elim (Bool-cases (timed_lock (record clock { nsec = clock.nsec + 250_000_000 }))) [
      | inl l ↦ elim (Bool-cases (leb max_login_slots (length m'.login.requests))) [
        | inl full ↦ rw l (rw full (inr (refl, same)))
        | inr room ↦ rw l (
            rw room
              (inl (refl, (r, f.1, ap (λ q. q.requests ++ r ∷ []) same, ap (λ q. q.replies) same))))
      ]
      | inr l ↦ rw l (inr (refl, same))
    ]

module _ {J : Type 0} (j : Jansson J) (max_users : ℤ) (timed_lock : Timespec → Bool) where
  ident_command-IsLogin :
      (clock : Timespec) (k : ℕ) (payload : Bytes) (m : Machine)
      → IsLogin m
      → IsLogin (ident_command j max_users timed_lock clock k payload m).0
  unfolding ident_command
  ident_command-IsLogin clock k payload m v =
      elim (Bool-cases ((con_of k m).identified || (con_of k m).auth_started)) [
        | inl e ↦ rw e v
        | inr e ↦
            let fresh : (con_of k m).auth_started ≡ false = ground (arith, e) in
            let self : (k == k) ≡ true = ground arith in
            elim (Bool-cases (leb_ℤ max_users (pos (length m.world.state.connection_map)))) [
              | inl full ↦ rw e (rw full (change-IsLogin k m v))
              | inr room ↦ rw e (
                  rw room (
                    queue_login-IsLogin timed_lock clock k _ _
                      (read_ident-IsFrom j k (j.json_loads (c_str payload)))
                      (fresh_sender k m v.each fresh) (rw self refl) (change-IsLogin k m v)))
            ]
      ]

  -- The main thread runs the command, or the login thread takes a request.
  pub step : LoginEvent → Machine → Machine
  step (identifies clock k payload) m = (ident_command j max_users timed_lock clock k payload m).0
  step takes m = record m { login = (get_request m.login).0 }

  pub run : List LoginEvent → Machine → Machine
  run [] m = m
  run (e ∷ es) m = run es (step e m)

  -- However the commands of any connections and the login thread's takings follow each other, and
  -- whether or not the mutex was got: at most 30 requests wait, no connection has two of them
  -- waiting, and each connection that has one is marked as logging in, so that it gets no other.
  pub run-IsLogin : (es : List LoginEvent) (m : Machine) → IsLogin m → IsLogin (run es m)
  unfolding run step
  run-IsLogin [] m v = v
  run-IsLogin (identifies clock k payload ∷ es) m v =
      run-IsLogin es _ (ident_command-IsLogin clock k payload m v)
  run-IsLogin (takes ∷ es) m v = run-IsLogin es _ (get_request-IsQueue _ m.login v)

  -- The answer says OK exactly if one request, of this connection, is new at the end of the queue;
  -- with any other answer both queues are as they were.
  pub ident_command_lem :
      (clock : Timespec) (k : ℕ) (payload : Bytes) (m : Machine)
      → IsAnswered k m (ident_command j max_users timed_lock clock k payload m)
  unfolding ident_command
  ident_command_lem clock k payload m =
      elim (Bool-cases ((con_of k m).identified || (con_of k m).auth_started)) [
        | inl e ↦ rw e (inr (refl, refl))
        | inr e ↦ elim (Bool-cases (leb_ℤ max_users (pos (length m.world.state.connection_map)))) [
          | inl full ↦ rw e (rw full (inr (refl, refl)))
          | inr room ↦ rw e (
              rw room (
                queue_login-IsAnswered timed_lock clock k _ m _
                  (read_ident-IsReading j k (j.json_loads (c_str payload))) refl))
        ]
      ]
