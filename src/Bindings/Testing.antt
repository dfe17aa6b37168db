-- ===== src/Bindings/Testing.antt =====
-- src/lua_testing.cpp: the module `testing` of the scripts, but for what runs the test file. A
-- connection that is made is given a number that no connection has.
use fserv.Prelude.{ℕ, Bool, true, Option, none, some, List, [], ◌∷◌, ◌++◌, if◌then◌else◌}
use fserv.Prelude.Bytes.{Bytes, codes, c_str}
use fserv.Prelude.Int.{ℤ, pos}
use fserv.Connection.{Connection, new_connection}
use fserv.Rooms.{Heap, with_connection, part}
use fserv.ServerState.{add_connection, remove_connection, get_channel, remove_channel}
use fserv.Bindings.{
  LuaApi, lua_tboolean, connection, Site, Call, Binding, ◌>>=◌, ◌>>◌, lua_error, pure, get_site,
  put_site, nothing, answer, type_of, to_boolean, check_any, check_string, to_string,
}

abbrev pub test_connection : Bytes → Connection
test_connection name = record new_connection {
  character_name = name;
  character_name_lower = name;
  identified = true;
  account_id = pos 1;
  character_id = pos 2;
  closed = true;
}

unfoldable pub part_each : ℤ → ℕ → List ℕ → Heap → Heap
part_each now c [] h = h
part_each now c (k ∷ ks) h = part_each now c ks (part now c k h)

-- The branch for a channel that was found.
unfoldable pub kill : ℤ → Bytes → Option ℕ → Site → Site
unfolding part_each
kill now name none s = s
kill now name (some c) s = record s {
  heap = part_each now c (s.heap.channels c).participants s.heap;
  state = remove_channel name s.state;
}

module _ {V : Type 0} (lua : LuaApi V) where
  -- An argument as text.
  unfoldable pub shown : List V → ℕ → Call Bytes
  shown args n = elim (type_of lua args n) [
    | lua_tboolean ↦ pure (if to_boolean lua args n then codes "true" else codes "false")
    | _ ↦ to_string lua args n
  ]

  -- `equal` is `lua_equal` of the first two arguments.
  unfoldable pub lua_assert : (List V → Bool) → Binding V
  unfolding shown
  lua_assert equal args = do
    check_any lua args 2
    left ← shown args 1
    right ← shown args 2
    if equal args
        then nothing
        else lua_error
            (codes "Assert failed! Left: " ++ c_str left ++ codes " Right: " ++ c_str right)

  unfoldable pub create_connection : ℕ → Binding V
  create_connection con args = do
    check_any lua args 1
    char_name ← check_string lua args 1
    s ← get_site
    let h = with_connection con (λ old. test_connection char_name) s.heap
    put_site (record s { heap = h; state = add_connection h char_name con s.state })
    answer (connection con)

  unfoldable pub remove_test_connection : Binding V
  remove_test_connection args = do
    check_any lua args 1
    char_name ← check_string lua args 1
    s ← get_site
    put_site (record s { state = remove_connection s.heap char_name s.state })
    nothing

  unfoldable pub kill_channel : ℤ → Binding V
  unfolding kill
  kill_channel now args = do
    check_any lua args 1
    chan_name ← check_string lua args 1
    s ← get_site
    put_site (kill now chan_name (get_channel chan_name s.state) s)
    nothing
