-- ===== src/Bindings/Chat/Logs.antt =====
-- `logAction` of src/lua_chat.cpp: the record in a file of its own and in the list in Redis.
use fserv.Prelude.{ℕ, Bool, [], ◌∷◌, ◌++◌, take}
use fserv.Prelude.Bytes.{Bytes, codes, c_str}
use fserv.Prelude.Int.{ℤ}
use fserv.Json.{Jansson, text}
use fserv.Connection.{Connection}
use fserv.ServerState.Saved.{fsave_file}
use fserv.Bindings.{
  LuaApi, redis_lpush, Binding, ◌>>=◌, ◌>>◌, fault, get_site, put_site, or_call, nothing, check_any,
  check_string, get_lcon,
}
use fserv.Bindings.Convert.{lua_to_json}
use fserv.Bindings.Channels.Said.{top}
use fserv.Bindings.Connections.Sets.{add_request}

-- `snprintf` into 255 bytes; `int_text` is what `%d` writes for the time.
abbrev pub log_name : (ℤ → Bytes) → Bytes → ℤ → Bytes
log_name int_text type now =
    take 254 (codes "./oplogs/" ++ (c_str type ++ (codes "." ++ (int_text now ++ codes ".log"))))

module _ {V J : Type 0} (lua : LuaApi V) (j : Jansson J) (real : V → J) (depth : ℕ) where
  abbrev pub action_text : J → Connection → Bytes → ℤ → Bytes
  action_text args con type now = c_str (
      j.json_dumps (
        j.json_object (
          (codes "args", args)
          ∷ (codes "name", text j con.character_name)
          ∷ (codes "type", text j type)
          ∷ (codes "time", j.json_integer now)
          ∷ [])))

  -- `now` and `later` are the two calls of `time`; `got` says that the queue took the request.
  unfoldable pub log_action : (Bytes → Bool) → (ℤ → Bytes) → ℤ → ℤ → Bool → Binding V
  log_action writable int_text now later got args = do
    check_any lua args 3
    k ← get_lcon lua args 1
    type ← check_string lua args 2
    or_call (lua_to_json lua j real depth (top args))
        (λ table. do
          s ← get_site
          let message = action_text table (s.heap.connections k) type now
          let (files, saved) = fsave_file writable (log_name int_text type later) message s.files
          let (s', queued) =
              add_request got
                (record {
                  method = redis_lpush;
                  key = codes "chat.adminlog";
                  values = message ∷ [];
                })
                (record s { files = files })
          put_site s'
          nothing)
        fault
