-- ===== src/ServerState/Lists.antt =====
-- The lists of operators, bans, timeouts, alt watches and staff calls of src/server_state.cpp.
use fserv.Prelude.{ℕ, Bool, true, false, Option, none, some, List, [], ◌∷◌, if◌then◌else◌}
use fserv.Prelude.Bytes.{Bytes, codes, eq_bytes, lowered}
use fserv.Prelude.Int.{ℤ, pos, ◌+ℤ◌, ltb_ℤ}
use fserv.Prelude.Maps.{Map, bytes_eq, nat_eq, int_eq, lookup, insert, erase, has, add, remove}
use fserv.ServerState.{ServerState, TimeoutRecord, AltWatchRecord, StaffCallRecord}

-- The set of operators compares names by `boost::algorithm::iequals`.
unfoldable pub iequals : Bytes → Bytes → Bool
iequals x y = eq_bytes (lowered x) (lowered y)

unfoldable pub op_member : Bytes → List Bytes → Bool
unfolding iequals
op_member op [] = false
op_member op (x ∷ ops) = if iequals x op then true else op_member op ops

unfoldable pub op_insert : Bytes → List Bytes → List Bytes
unfolding iequals
op_insert op [] = op ∷ []
op_insert op (x ∷ ops) = if iequals x op then x ∷ ops else x ∷ op_insert op ops

unfoldable pub op_erase : Bytes → List Bytes → List Bytes
unfolding iequals
op_erase op [] = []
op_erase op (x ∷ ops) = if iequals x op then op_erase op ops else x ∷ op_erase op ops

unfoldable pub add_op : Bytes → ServerState → ServerState
add_op op s = record s { op_list = op_insert op s.op_list }

unfoldable pub remove_op : Bytes → ServerState → ServerState
remove_op op s = record s { op_list = op_erase op s.op_list }

unfoldable pub is_op : Bytes → ServerState → Bool
is_op op s = op_member op s.op_list

unfoldable pub add_ban : Bytes → ℤ → ServerState → ServerState
add_ban character accountid s = record s { ban_list = insert accountid character s.ban_list }

-- The first ban under that name is erased; the flag says that there was one.
unfoldable pub erase_ban : Bytes → Map ℤ Bytes → Map ℤ Bytes × Bool
erase_ban character [] = ([], false)
erase_ban character ((id, name) ∷ m) =
    let rest = erase_ban character m in
    if eq_bytes name character then (m, true) else ((id, name) ∷ rest.0, rest.1)

unfoldable pub remove_ban : Bytes → ServerState → ServerState × Bool
unfolding erase_ban
remove_ban character s =
    let r = erase_ban character s.ban_list in (record s { ban_list = r.0 }, r.1)

unfoldable pub is_banned : ℤ → ServerState → Bool
is_banned accountid s = has accountid s.ban_list

unfoldable pub add_timeout : ℤ → Bytes → ℤ → ℤ → ServerState → ServerState
add_timeout now character accountid length s = record s {
  timeout_list =
      insert accountid (record { character = character; end = now +ℤ length }) s.timeout_list;
}

unfoldable pub erase_timeout : Bytes → Map ℤ TimeoutRecord → Map ℤ TimeoutRecord
erase_timeout character [] = []
erase_timeout character ((id, t) ∷ m) =
    let rest = erase_timeout character m in
    if eq_bytes t.character character then m else (id, t) ∷ rest

unfoldable pub remove_timeout : Bytes → ServerState → ServerState
unfolding erase_timeout
remove_timeout character s = record s { timeout_list = erase_timeout character s.timeout_list }

-- `some end` for `true`.
unfoldable pub is_timed_out : ℤ → ServerState → Option ℤ
is_timed_out accountid s = elim (lookup accountid s.timeout_list) [
  | none ↦ none
  | some t ↦ some t.end
]

-- The loop at the head of `saveBans`.
unfoldable pub drop_timeouts : ℤ → Map ℤ TimeoutRecord → Map ℤ TimeoutRecord
drop_timeouts now [] = []
drop_timeouts now ((id, t) ∷ m) =
    let rest = drop_timeouts now m in if ltb_ℤ t.end now then rest else (id, t) ∷ rest

unfoldable pub add_alt_watch : ℤ → AltWatchRecord → ServerState → ServerState
add_alt_watch accountid r s = record s { alt_watch_list = insert accountid r s.alt_watch_list }

unfoldable pub remove_alt_watch : ℤ → ServerState → ServerState
remove_alt_watch accountid s = record s { alt_watch_list = erase accountid s.alt_watch_list }

unfoldable pub get_alt_watch : ℤ → ServerState → AltWatchRecord
get_alt_watch accountid s = elim (lookup accountid s.alt_watch_list) [
  | none ↦ record { account_id = pos 0; character = []; end = pos 0 }
  | some r ↦ r
]

unfoldable pub alt_watches_to_erase : ℤ → Map ℤ AltWatchRecord → List ℤ
alt_watches_to_erase now [] = []
alt_watches_to_erase now ((id, r) ∷ m) =
    let rest = alt_watches_to_erase now m in if ltb_ℤ r.end now then id ∷ rest else rest

unfoldable pub erase_alt_watches : List ℤ → Map ℤ AltWatchRecord → Map ℤ AltWatchRecord
erase_alt_watches [] m = m
erase_alt_watches (id ∷ ids) m = erase_alt_watches ids (erase id m)

unfoldable pub clean_alt_watch_list : ℤ → ServerState → ServerState
unfolding alt_watches_to_erase erase_alt_watches
clean_alt_watch_list now s = record s {
  alt_watch_list = erase_alt_watches (alt_watches_to_erase now s.alt_watch_list) s.alt_watch_list;
}

unfoldable pub add_staff_call : Bytes → StaffCallRecord → ServerState → ServerState
add_staff_call callid r s = record s { staff_call_list = insert callid r s.staff_call_list }

unfoldable pub remove_staff_call : Bytes → ServerState → ServerState
remove_staff_call callid s = record s { staff_call_list = erase callid s.staff_call_list }

-- `timestamp` and `logid` of the record for a missing call are never set.
unfoldable pub get_staff_call : ℤ → ℤ → Bytes → ServerState → StaffCallRecord
get_staff_call timestamp logid callid s = elim (lookup callid s.staff_call_list) [
  | none ↦ record {
    action = codes "invalid";
    character = [];
    report = [];
    timestamp = timestamp;
    callid = [];
    logid = logid;
    tab = [];
  }
  | some r ↦ r
]

unfoldable pub add_staff_call_target : ℕ → ServerState → ServerState
add_staff_call_target con s = record s { staff_call_targets = add con s.staff_call_targets }

unfoldable pub remove_staff_call_target : ℕ → ServerState → ServerState
remove_staff_call_target con s = record s { staff_call_targets = remove con s.staff_call_targets }
