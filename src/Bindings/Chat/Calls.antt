-- ===== src/Bindings/Chat/Calls.antt =====
-- The bindings of src/lua_chat.cpp for alt watches and staff calls.
use fserv.Prelude.{true, false, ◌||◌, not, List, [], ◌∷◌, ◌++◌, if◌then◌else◌}
use fserv.Prelude.Bytes.{Bytes, codes, eq_bytes, c_str}
use fserv.Prelude.Int.{ℤ, pos, negsuc, ◌+ℤ◌, ltb_ℤ, eq_ℤ}
use fserv.Prelude.Maps.{Map}
use fserv.Json.{Jansson, given, text}
use fserv.Connection.{Connection, from_string, send}
use fserv.ServerState.{AltWatchRecord, StaffCallRecord}
use fserv.ServerState.Lists
use fserv.Bindings.{
  LuaApi, Item, boolean, integer, string, item, table, Pushed, Binding, ◌>>=◌, ◌>>◌, pure, get_site,
  on_state, on_connection, connection_of, nothing, answer, check_any, check_string, check_integer,
  get_lcon,
}

-- Twenty minutes.
abbrev pub alt_watch_time : ℤ
alt_watch_time = pos 1200

abbrev call_fields : StaffCallRecord → List (Bytes × Item)
call_fields r =
    (codes "callid", string (c_str r.callid))
    ∷ (codes "character", string (c_str r.character))
    ∷ (codes "report", string (c_str r.report))
    ∷ (codes "logid", integer r.logid)
    ∷ (codes "timestamp", integer r.timestamp)
    ∷ (codes "tab", string (c_str r.tab))
    ∷ []

module _ {V : Type 0} (lua : LuaApi V) where
  unfoldable pub add_alt_watch : ℤ → Binding V
  add_alt_watch now args = do
    check_any lua args 2
    k ← get_lcon lua args 1
    t ← get_lcon lua args 2
    target ← connection_of t
    let r : AltWatchRecord = record {
      account_id = target.account_id;
      character = target.character_name;
      end = now +ℤ alt_watch_time;
    }
    on_state (Lists.add_alt_watch target.account_id r)
    nothing

  abbrev watch_answer : ℤ → ℤ → AltWatchRecord → List Pushed
  watch_answer now account_id awr =
      if not (eq_ℤ awr.account_id account_id) || ltb_ℤ awr.end now
      then item (boolean false) ∷ []
      else item (boolean true) ∷ table ((codes "character", string (c_str awr.character)) ∷ []) ∷ []

  unfoldable pub get_alt_watch : ℤ → Binding V
  get_alt_watch now args = do
    check_any lua args 1
    account_id ← check_integer lua args 1
    s ← get_site
    pure (watch_answer now account_id (Lists.get_alt_watch account_id s.state))

  unfoldable pub add_staff_call : ℤ → Binding V
  add_staff_call now args = do
    check_any lua args 5
    callid ← check_string lua args 1
    character ← check_string lua args 2
    report ← check_string lua args 3
    logid ← check_integer lua args 4
    tab ← check_string lua args 5
    let r : StaffCallRecord = record {
      action = codes "report";
      character = character;
      report = report;
      timestamp = now;
      callid = callid;
      logid = logid;
      tab = tab;
    }
    on_state (Lists.add_staff_call callid r)
    nothing

  unfoldable pub remove_staff_call : Binding V
  remove_staff_call args = do
    check_any lua args 1
    callid ← check_string lua args 1
    on_state (Lists.remove_staff_call callid)
    nothing

  -- `timestamp` and `logid` stand for what the record of a missing call holds.
  unfoldable pub get_staff_call : ℤ → ℤ → Binding V
  get_staff_call timestamp logid args = do
    check_any lua args 1
    callid ← check_string lua args 1
    s ← get_site
    let r = Lists.get_staff_call timestamp logid callid s.state
    if not (eq_bytes r.callid callid)
        then answer (boolean false)
        else pure (table (call_fields r) ∷ [])

module _ {J : Type 0} (j : Jansson J) (escape_html : Bytes → Bytes) where
  abbrev logid_field : ℤ → List (Bytes × J)
  logid_field logid =
      if not (eq_ℤ logid (negsuc 0)) then (codes "logid", j.json_integer logid) ∷ [] else []

  abbrev bad_report : Bytes
  bad_report =
      codes
        "Report contained invalid UTF-8 and could not be encoded. Please contact the sender about this!"

  abbrev pub call_text : StaffCallRecord → Bytes
  call_text r =
      codes "SFC "
      ++ c_str (
          j.json_dumps (
            j.json_object (
              (codes "action", text j (codes "report"))
              ∷ (codes "callid", text j r.callid)
              ∷ (codes "character", text j r.character)
              ∷ (codes "old", j.json_boolean true)
              ∷ (codes "timestamp", j.json_integer r.timestamp)
              ∷ (codes "report", given (text j bad_report) (j.json_string_checked (c_str r.report)))
              ∷ (
                codes "tab",
                given (text j (codes "Invalid Tab"))
                    (j.json_string_checked (c_str (escape_html r.tab))),
              )
              ∷ logid_field r.logid)))

  unfoldable pub send_calls : Map Bytes StaffCallRecord → Connection → Connection
  send_calls [] con = con
  send_calls ((callid, r) ∷ calls) con = send_calls calls (send (from_string (call_text r)) con).0

  unfoldable pub send_staff_calls : {V : Type 0} → LuaApi V → Binding V
  unfolding send_calls
  send_staff_calls lua args = do
    check_any lua args 1
    k ← get_lcon lua args 1
    s ← get_site
    on_connection k (send_calls s.state.staff_call_list)
    nothing
