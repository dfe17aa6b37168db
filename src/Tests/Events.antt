-- ===== src/Tests/Events.antt =====
-- The callbacks of src/server.cpp that run Lua, with a state whose every event marks its connection.
use fserv.Prelude.{ℕ, ◌≡◌, ◌⊎◌, refl, Bool, true, false, Option, none, some, [], ◌∷◌, ◌++◌, arith}
use fserv.Prelude.Bytes.{Bytes, codes}
use fserv.Prelude.Int.{pos}
use fserv.Login.{LoginReply}
use fserv.NativeCommand.{Machine, change}
use fserv.Server.Events.{Lua, lua_returned, process_wakeup_callback, rtb_callback, run_lua_rtb}
use fserv.Server.Events.Replies.{KeepsLogin, handle_replies, process_wakeup_callback_lem}
use fserv.Server.Events.Rtb.{IsAuthentic, rtb_callback-IsAuthentic}
use fserv.Tests.Commands.{machine, tickets}
use fserv.Tests.Json.{Json}

abbrev mark : Option ℕ → Machine → Machine
mark none m = m
mark (some k) m = change k (λ con. record con { admin = true }) m

abbrev marking : Lua Json
marking = record {
  is_function = λ l table name m. true;
  pcall = λ l table name k root m. (mark k m, lua_returned (pos 0));
}

marking-KeepsLogin : KeepsLogin tickets marking
marking-KeepsLogin l table name none root m = refl
marking-KeepsLogin l table name (some k) root m = refl

abbrev reply : ℕ → Bool → LoginReply
reply k success = record { connection = k; message = codes "{}"; success = success }

abbrev answered : Machine
answered = record machine {
  login = record { requests = []; replies = reply 1 true ∷ reply 2 false ∷ [] };
}

process_wakeup_callback_example :
    (process_wakeup_callback tickets marking 2 answered
      ≡ handle_replies tickets marking (reply 1 true ∷ reply 2 false ∷ []) answered)
    × ((process_wakeup_callback tickets marking 2 answered).login.replies ≡ [])
process_wakeup_callback_example =
    process_wakeup_callback_lem tickets marking marking-KeepsLogin 2 answered (omega arith)

-- A hash that is always the same 32 bytes.
abbrev digest : Bytes
digest = codes "0123456789abcdef0123456789abcdef"

rtb_callback-IsAuthentic_example :
    IsAuthentic (λ s. digest) [] 5 5 (digest ++ codes "NTF{}")
      × (rtb_callback tickets marking (λ s. digest) [] 5 5 (digest ++ codes "NTF{}") machine
          ≡ run_lua_rtb tickets marking (codes "NTF") (codes "{}") machine)
    ⊎ ¬ IsAuthentic (λ s. digest) [] 5 5 (digest ++ codes "NTF{}")
      × (rtb_callback tickets marking (λ s. digest) [] 5 5 (digest ++ codes "NTF{}") machine
          ≡ machine)
rtb_callback-IsAuthentic_example =
    rtb_callback-IsAuthentic (λ s. digest) [] 5 tickets marking 5 (digest ++ codes "NTF{}") machine
