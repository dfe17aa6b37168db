-- ===== src/Tests/Bindings.antt =====
-- The bindings for the scripts at a small site.
use fserv.Prelude.{
  ℕ, zero, suc, ◌+◌, ◌<◌, ◌≡◌, refl, Bool, true, false, none, some, Option, List, [], ◌∷◌, arith,
}
use fserv.Prelude.Bytes.{Bytes, codes, eq_bytes, eq_bytes_iff, lowered, to_lower, c_str}
use fserv.Prelude.Int.{ℤ, pos, negsuc, ◌+ℤ◌}
use fserv.Prelude.Maps.{nat_eq, bytes_eq, lookup, has, member}
use fserv.Connection.{new_connection}
use fserv.ServerState.{new_server_state, get_channel, count_at}
use fserv.Bindings.{
  LuaApi, LuaType, lua_tnil, lua_tlightuserdata, lua_tnumber, lua_tstring, lua_ttable, Pointee,
  channel_pointer, connection_pointer, neither, Site,
}
use fserv.Bindings.Arguments.{Raises}
use fserv.Bindings.Channels.Bans.{unban}
use fserv.Bindings.Channels.Members.{add_mod}
use fserv.Bindings.Channels.Rooms.{destroy, destroy_channel}
use fserv.Bindings.Channels.Table.{luachannel_funcs}
use fserv.Bindings.Channels.Table.Rejects.{luachannel_funcs-Rejects}
use fserv.Bindings.Channels.Table.Agree.{luachannel_funcs-After}
use fserv.Bindings.Channels.Sound.Calls.{Good, After}
use fserv.Bindings.Channels.Sound.Destroyed.{destroy_lem}
use fserv.Bindings.Channels.Roles.{LowerKeys, KeepsConnections, add_mod-KeepsConnections}
use fserv.Bindings.Connections.Session.{set_ident}
use fserv.Bindings.Connections.Registered.{Counted, StaysCounted, set_ident-StaysCounted}
use fserv.Bindings.Chat.Users.{arrays}
use fserv.Bindings.Chat.Users.Split.{flat, AtMost, arrays_lem}
use fserv.Bindings.Http.{get_request, post_request}
use fserv.Bindings.Http.Requests.{get_request-Raises, post_request-fifth}
use fserv.ServerState.PrivateIds.{private_channel_id, generate_private_channel_id}
use fserv.ServerState.PrivateIds.Fresh.{Names, IsFresh, generate_private_channel_id-IsFresh}
use fserv.Websocket.Handshake.{from_array}
use fserv.Json.{given}
use fserv.Tests.Json.{json}
use fserv.Tests.Rooms.{heap, heap-IsLinked}

-- A few of the values of a script.
pub data Value : Type 0 where
  nil : Value
  whole : ℕ → Value
  string : Bytes → Value
  table : List (Bytes × Bytes) → Value
  a_channel a_connection : ℕ → Value

abbrev type_of_value : Value → LuaType
type_of_value nil = lua_tnil
type_of_value (whole n) = lua_tnumber
type_of_value (string s) = lua_tstring
type_of_value (table m) = lua_ttable
type_of_value (a_channel c) = lua_tlightuserdata
type_of_value (a_connection k) = lua_tlightuserdata

abbrev pointee_of : Value → Pointee
pointee_of (a_channel c) = channel_pointer c
pointee_of (a_connection k) = connection_pointer k
pointee_of _ = neither

abbrev text_of : Value → Option Bytes
text_of (string s) = some s
text_of (whole n) = some ((48 + n) ∷ [])
text_of _ = none

abbrev integer_of : Value → Option ℤ
integer_of (whole n) = some (pos n)
integer_of _ = none

abbrev is_true : Value → Bool
is_true nil = false
is_true _ = true

abbrev strings_of : List (Bytes × Bytes) → List (Value × Value)
strings_of [] = []
strings_of ((k, v) ∷ m) = (string k, string v) ∷ strings_of m

abbrev pairs_of : Value → List (Value × Value)
pairs_of (table m) = strings_of m
pairs_of _ = []

abbrev lua : LuaApi Value
lua = record {
  lua_type = type_of_value;
  lua_touserdata = pointee_of;
  lua_tostring = text_of;
  lua_tointeger = integer_of;
  lua_tonumber = integer_of;
  lua_toboolean = is_true;
  lua_next = pairs_of;
  lua_integer_text = λ n. codes "0";
  lua_typename = λ t. codes "boolean";
  value_expected = λ n. codes "value expected";
  string_expected = λ n. codes "string expected";
  number_expected = λ n. codes "number expected";
}

-- Channel 5 has connections 1 and 2 in it, and 6 is the next channel's number.
abbrev site : Site
site = record {
  heap = heap;
  next = 6;
  state = record new_server_state { channel_map = (codes "lobby", 5) ∷ [] };
  public_list = record { cache_time = pos 0; cached_message = [] };
  private_list = record { cache_time = pos 0; cached_message = [] };
  files = [];
  redis = [];
  http = [];
}

site-Good : Good site
unfolding member
site-Good = record { agreed = heap-IsLinked; unmade = λ c k later. ground (arith, later) }

luachannel_funcs-After_example :
    After (destroy_channel json lua (pos 9) (string (codes "lobby") ∷ []) site)
unfolding luachannel_funcs lookup eq_bytes member
luachannel_funcs-After_example =
    luachannel_funcs-After lua json (λ v. json.json_null) (λ s. s) [] (λ n. []) 200 9 (pos 9)
      (pos 9) (pos 9) (codes "destroyChannel") (destroy_channel json lua (pos 9))
      (string (codes "lobby") ∷ []) site refl refl site-Good

luachannel_funcs-Rejects_example :
    Raises (unban lua (a_connection 1 ∷ string (codes "eve") ∷ [])) site
unfolding luachannel_funcs lookup eq_bytes member
luachannel_funcs-Rejects_example =
    luachannel_funcs-Rejects lua json (λ v. json.json_null) (λ s. s) [] (λ n. []) 200 9 (pos 9)
      (pos 9) (pos 9) (codes "unban") (unban lua) (a_connection 1 ∷ string (codes "eve") ∷ []) site
      refl refl refl

destroy_example :
    ((k : ℕ)
      → (member k
            ((destroy json (pos 9) (codes "lobby") (some 5) site).heap.channels 5).participants
          ≡ false)
        × (member 5
              ((destroy json (pos 9) (codes "lobby") (some 5) site).heap.connections k).channel_list
            ≡ false))
    × (get_channel (codes "lobby") (destroy json (pos 9) (codes "lobby") (some 5) site).state
        ≡ none)
destroy_example = destroy_lem json (pos 9) (codes "lobby") 5 site site-Good

abbrev one_user : Site
one_user = record site {
  state = record new_server_state { connection_map = (codes "ann", 1) ∷ [] };
}

one_user-LowerKeys : LowerKeys one_user.state.connection_map
unfolding has lowered to_lower
one_user-LowerKeys name h =
    let is_ann : codes "ann" ≡ name = (eq_bytes_iff (codes "ann") name).0 (ground (arith, h)) in
    rw (← is_ann) refl

add_mod-KeepsConnections_example :
    KeepsConnections one_user
      (add_mod lua (pos 9) (a_channel 5 ∷ a_connection 1 ∷ string (codes "Ann") ∷ []) one_user)
unfolding lowered to_lower
add_mod-KeepsConnections_example =
    add_mod-KeepsConnections lua (pos 9) (a_channel 5 ∷ a_connection 1 ∷ string (codes "Ann") ∷ [])
      (string (codes "Ann")) (codes "Ann") one_user one_user-LowerKeys refl refl
      (λ e. ground (arith, e))

site-Counted : Counted site
unfolding count_at lookup
site-Counted = record { distinct = tt; users = refl; most = ground arith; per_address = λ a. refl }

set_ident-StaysCounted_example :
    StaysCounted
      (set_ident lua true (a_connection 1 ∷ string (codes "Ann") ∷ string (codes "ann") ∷ []) site)
unfolding has
set_ident-StaysCounted_example =
    set_ident-StaysCounted lua true
      (a_connection 1 ∷ string (codes "Ann") ∷ string (codes "ann") ∷ []) (string (codes "ann"))
      (codes "ann") site refl refl refl site-Counted

abbrev users : List ℕ
users = 7 ∷ 8 ∷ 9 ∷ []

arrays_example : (flat (arrays 2 0 [] users) ≡ users) × AtMost 2 (arrays 2 0 [] users)
arrays_example = arrays_lem 2 users (ground arith)

abbrev got_with_connection : List Value
got_with_connection =
    string (codes "f") ∷ string (codes "http://x") ∷ a_connection 1 ∷ table [] ∷ []

get_request-Raises_example : Raises (get_request lua true got_with_connection) site
get_request-Raises_example = get_request-Raises lua true got_with_connection site refl refl

abbrev posted : Value → List Value
posted extras =
    string (codes "f")
    ∷ string (codes "http://x")
    ∷ table ((codes "a", codes "1") ∷ [])
    ∷ nil
    ∷ extras
    ∷ []

post_request-fifth_example :
    post_request lua (λ v. v) true (posted (table ((codes "b", codes "2") ∷ []))) site
    ≡ post_request lua (λ v. v) true (posted nil) site
post_request-fifth_example =
    post_request-fifth lua (λ v. v) true (string (codes "f")) (string (codes "http://x"))
      (table ((codes "a", codes "1") ∷ [])) nil (table ((codes "b", codes "2") ∷ [])) nil site

-- The seed stands for its own hash.
abbrev seed_text : ℤ → Bytes
seed_text (pos n) = n ∷ []
seed_text (negsuc n) = []

abbrev ids : ℕ → Bytes
ids i = given [] (private_channel_id (λ s. s) [] seed_text new_connection [] (pos (suc i)))

ids_apart : (i j : ℕ) → i < 2 → j < 2 → lowered (ids i) ≡ lowered (ids j) → i ≡ j
unfolding lowered to_lower private_channel_id from_array c_str
ids_apart zero zero h h' e = refl
ids_apart zero (suc zero) h h' e = absurd (ground (arith, e))
ids_apart (suc zero) zero h h' e = absurd (ground (arith, e))
ids_apart (suc zero) (suc zero) h h' e = refl
ids_apart (suc (suc i)) j h h' e = absurd (omega (arith, h))
ids_apart i (suc (suc j)) h h' e = absurd (omega (arith, h'))

ids-Names : Names (λ s. s) [] seed_text new_connection [] 2 ids (pos 0)
unfolding private_channel_id from_array c_str ◌+ℤ◌
ids-Names = (named, ids_apart)
  where
    named :
        (i : ℕ)
        → i < 2
        → private_channel_id (λ s. s) [] seed_text new_connection [] (pos 0 +ℤ pos (suc i))
          ≡ some (ids i)
    named zero h = refl
    named (suc zero) h = refl
    named (suc (suc i)) h = absurd (omega (arith, h))

generate_private_channel_id-IsFresh_example :
    IsFresh
      (λ s. s)
      []
      seed_text
      (generate_private_channel_id (λ s. s) [] seed_text 2 new_connection [] site.state)
      site.state
unfolding has
generate_private_channel_id-IsFresh_example =
    generate_private_channel_id-IsFresh (λ s. s) [] seed_text new_connection [] ids site.state
      (refl, tt) ids-Names
