-- ===== src/Bindings/Chat/Users.antt =====
-- `sendUserList` of src/lua_chat.cpp: the users in messages of `split` entries, and a last one with
-- what is left.
pub mod Split
use fserv.Prelude.{ℕ, suc, ◌+◌, ◌%◌, ◌==◌, Bool, false, List, [], ◌∷◌, ◌++◌, if◌then◌else◌}
use fserv.Prelude.Bytes.{Bytes, codes, c_str}
use fserv.Prelude.Int.{ℤ, pos, negsuc, eq_ℤ}
use fserv.Prelude.Maps.{Map}
use fserv.Json.{Jansson, given, text}
use fserv.Connection.{Connection, from_string, send}
use fserv.Rooms.{with_connection}
use fserv.Bindings.{
  LuaApi, Binding, ◌>>=◌, ◌>>◌, fault, get_site, put_site, nothing, check_any, check_string,
  check_integer, get_lcon,
}

-- `|split|`: the sign of the divisor does not change a remainder.
abbrev pub magnitude : ℤ → ℕ
magnitude (pos n) = n
magnitude (negsuc n) = suc n

-- The loop: `n` connections were seen, and `array` waits. The arrays in the order in which they are
-- sent; the one behind the loop too.
unfoldable pub arrays {ℓ} : {A : Type ℓ} → ℕ → ℕ → List A → List A → List (List A)
arrays split n array [] = array ∷ []
arrays split n array (x ∷ xs) =
    let is_full = (n + 1) % split == 0 in
    let rest = arrays split (n + 1) (if is_full then [] else array ++ x ∷ []) xs in
    if is_full then (array ++ x ∷ []) ∷ rest else rest

abbrev pub connections_of : (ℕ → Connection) → Map Bytes ℕ → List Connection
connections_of cons [] = []
connections_of cons ((name, k) ∷ m) = cons k ∷ connections_of cons m

module _ {J : Type 0} (j : Jansson J) where
  abbrev pub user_node : Connection → J
  user_node con = j.json_array (
      text j con.character_name
      ∷ text j con.gender
      ∷ text j con.status
      ∷ given (j.json_string []) (j.json_string_checked (c_str con.status_message))
      ∷ [])

  unfoldable pub user_nodes : List Connection → List J
  user_nodes [] = []
  user_nodes (con ∷ cons) = user_node con ∷ user_nodes cons

  abbrev pub users_text : Bytes → List J → Bytes
  users_text prefix nodes =
      prefix
      ++ codes " "
      ++ c_str (j.json_dumps (j.json_object ((codes "characters", j.json_array nodes) ∷ [])))

  unfoldable pub send_lists : Bytes → List (List J) → Connection → Connection
  send_lists prefix [] con = con
  send_lists prefix (nodes ∷ lists) con =
      send_lists prefix lists (send (from_string (users_text prefix nodes)) con).0

  -- A division by zero faults, where there is a connection to divide for.
  abbrev split_faults : ℤ → List Connection → Bool
  split_faults split [] = false
  split_faults split (con ∷ cons) = eq_ℤ split (pos 0)

  unfoldable pub send_user_list : {V : Type 0} → LuaApi V → Binding V
  unfolding arrays user_nodes send_lists
  send_user_list lua args = do
    check_any lua args 3
    k ← get_lcon lua args 1
    prefix ← check_string lua args 2
    split ← check_integer lua args 3
    s ← get_site
    let cons = connections_of s.heap.connections s.state.connection_map
    let lists = arrays (magnitude split) 0 [] (user_nodes cons)
    if split_faults split cons then fault else do
      put_site (record s { heap = with_connection k (send_lists prefix lists) s.heap })
      nothing
