-- ===== src/Server/Events/Replies.antt =====
-- The replies of the login service: each that waits is handled, once and in order.
use fserv.Prelude.{
  ℕ, zero, suc, ◌≤◌, ◌≡◌, refl, ap, ◌∙◌, Option, none, some, List, [], ◌∷◌, arith, length,
}
use fserv.Prelude.Bytes.{Bytes, codes, c_str}
use fserv.Json.{Jansson}
use fserv.Login.{LoginReply, Queues, get_reply}
use fserv.NativeCommand.{Machine}
use fserv.Server.Events.{
  Lua, LuaReturn, lua_failed, lua_returned, ident_returned, run_ident, process_login, answer_login,
  handle_reply, next_reply, process_wakeup_callback,
}

get_reply-empty : (q : Queues) → q.replies ≡ [] → get_reply q ≡ (q, none)
unfolding get_reply
get_reply-empty q e = rw e refl

get_reply-first :
    (q : Queues) (r : LoginReply) (rs : List LoginReply)
    → q.replies ≡ r ∷ rs
    → get_reply q ≡ (record q { replies = rs }, some r)
unfolding get_reply
get_reply-first q r rs e = rw e refl

module _ {J : Type 0} (j : Jansson J) (lua : Lua J) where
  -- No binding of the Lua states touches the queues of the login client.
  abbrev pub KeepsLogin : Type 0
  KeepsLogin =
      (l : Option ℕ) (table name : Bytes) (k : Option ℕ) (root : J) (m : Machine)
      → (lua.pcall l table name k root m).0.login ≡ m.login

  -- One pass over the replies that wait.
  abbrev pub handle_replies : List LoginReply → Machine → Machine
  handle_replies [] m = m
  handle_replies (r ∷ rs) m =
      handle_replies rs
        (handle_reply j lua r (record m { login = record (m.login) { replies = rs } }))

  run_ident-login :
      KeepsLogin → (k : ℕ) (o : Option J) (m : Machine) → (run_ident j lua k o m).0.login ≡ m.login
  unfolding run_ident ident_returned
  run_ident-login keeps k none m = refl
  run_ident-login keeps k (some n) m =
      returned (lua.pcall none (codes "event") (codes "ident_callback") (some k) n m)
        (keeps none (codes "event") (codes "ident_callback") (some k) n m)
    where
      returned :
          (r : Machine × LuaReturn)
          → r.0.login ≡ m.login
          → (ident_returned j lua k r).0.login ≡ m.login
      returned (m', lua_failed message) e = e
      returned (m', lua_returned ret) e = e

  handle_reply-login :
      KeepsLogin → (r : LoginReply) (m : Machine) → (handle_reply j lua r m).login ≡ m.login
  unfolding handle_reply process_login answer_login
  handle_reply-login keeps r m =
      let read = run_ident-login keeps r.connection (j.json_loads (c_str r.message)) m in
      ground (arith, read)

  -- If no Lua event touches the login queues, the callback, given fuel for the replies that wait,
  -- handles each of them once and in order, and leaves none.
  pub process_wakeup_callback_lem :
      KeepsLogin
      → (fuel : ℕ) (m : Machine) → length m.login.replies ≤ fuel
      → (process_wakeup_callback j lua fuel m ≡ handle_replies m.login.replies m)
        × ((process_wakeup_callback j lua fuel m).login.replies ≡ [])
  unfolding process_wakeup_callback next_reply
  process_wakeup_callback_lem keeps fuel m h = out fuel m.login.replies m refl h
    where
      out :
          (fuel : ℕ) (rs : List LoginReply) (m : Machine)
          → m.login.replies ≡ rs
          → length rs ≤ fuel
          → (process_wakeup_callback j lua fuel m ≡ handle_replies rs m)
            × ((process_wakeup_callback j lua fuel m).login.replies ≡ [])
      out zero [] m e h = (refl, e)
      out zero (r ∷ rs) m e h = absurd (omega (arith, h))
      out (suc fuel) [] m e h =
          let same =
            ap (next_reply j lua (process_wakeup_callback j lua fuel) m)
              (get_reply-empty m.login e) in
          (same, ap (λ x. x.login.replies) same ∙ e)
      out (suc fuel) (r ∷ rs) m e h =
          let m' : Machine = record m { login = record (m.login) { replies = rs } } in
          let left = ap (λ q. q.replies) (handle_reply-login keeps r m') in
          let same =
            ap (next_reply j lua (process_wakeup_callback j lua fuel) m)
              (get_reply-first m.login r rs e) in
          let rest = out fuel rs (handle_reply j lua r m') left (omega (arith, h)) in
          (same ∙ rest.0, ap (λ x. x.login.replies) same ∙ rest.1)
