-- ===== src/Tests/Commands.antt =====
-- src/native_command.cpp: two connections, of which the second looks for the first.
use fserv.Prelude.{ℕ, ◌↔◌, ◌≡◌, refl, true, some, List, [], ◌∷◌, ◌==◌, if◌then◌else◌, arith}
use fserv.Prelude.Bytes.{Bytes, codes, c_str, eq_bytes}
use fserv.Prelude.Int.{ℤ, pos, ◌-ℤ◌}
use fserv.Prelude.Maps.{Map, IsSimple, bytes_eq, int_eq, nat_eq, lookup, member, add}
use fserv.Json.{Jansson, array_at}
use fserv.Connection.{Connection, new_connection}
use fserv.Channel.{new_channel, ct_public}
use fserv.ServerState.{new_server_state}
use fserv.Rooms.{Heap}
use fserv.Login.{Timespec}
use fserv.NativeCommand.{Machine, ident_command}
use fserv.NativeCommand.Ident.{
  LoginEvent, identifies, takes, IsLogin, IsAnswered, run, run-IsLogin, ident_command_lem,
}
use fserv.NativeCommand.Search.{candidates, search_command, string_items, kink_items}
use fserv.NativeCommand.Search.Found.{IsSearched, search_command-IsSearched}
use fserv.NativeCommand.Search.Wanted.{is_match, IsWanted}
use fserv.NativeCommand.Search.Candidates.{filter}
use fserv.Tests.Json.{Json, json, json_with, find_field, fields_of, list_of, nodes_of}

-- A ticket for the character.
abbrev pub ticket : Json
ticket = json.json_object (
    (codes "method", json.json_string (codes "ticket"))
    ∷ (codes "account", json.json_string (codes "acc"))
    ∷ (codes "ticket", json.json_string (codes "fct"))
    ∷ (codes "character", json.json_string (codes "Ann"))
    ∷ (codes "cname", json.json_string (codes "client"))
    ∷ (codes "cversion", json.json_string (codes "1"))
    ∷ [])

abbrev pub tickets : Jansson Json
tickets = json_with (λ s. some ticket) (λ v. codes "{}")

abbrev pub ann : Connection
ann = record new_connection {
  character_name = codes "Ann";
  kink_list = pos 7 ∷ [];
  infotag_map = (codes "Gender", codes "Female") ∷ [];
}

abbrev pub heap : Heap
heap = record {
  channels = λ c. new_channel (codes "x") ct_public;
  connections = λ k. if k == 1 then ann else new_connection;
}

abbrev pub machine : Machine
machine = record {
  world = record { heap = heap; state = new_server_state; log = [] };
  login = record { requests = []; replies = [] };
}

abbrev midnight : Timespec
midnight = record { sec = 0; nsec = 0 }

abbrev history : List LoginEvent
history =
    identifies midnight 1 [] ∷ identifies midnight 2 [] ∷ identifies midnight 1 [] ∷ takes ∷ []

run-IsLogin_example : IsLogin (run tickets (pos 900) (λ t. true) history machine)
run-IsLogin_example =
    run-IsLogin tickets (pos 900) (λ t. true) history machine
      (record { bounded = ground arith; once = tt; each = tt })

-- The first command of the history puts a request in the queue, which an answer of OK tells.
ident_command_example :
    IsAnswered 1 machine (ident_command tickets (pos 900) (λ t. true) midnight 1 [] machine)
ident_command_example = ident_command_lem tickets (pos 900) (λ t. true) midnight 1 [] machine

abbrev kinks : Json
kinks = json.json_array (json.json_integer (pos 7) ∷ [])

abbrev wanted : Json
wanted = json.json_object (
    (codes "kinks", kinks)
    ∷ (codes "genders", json.json_array (json.json_string (codes "Female") ∷ []))
    ∷ [])

abbrev searches : Jansson Json
searches = json_with (λ s. some wanted) (λ v. codes "{}")

abbrev atoi : Bytes → ℤ
atoi s = pos 0

abbrev register : Map Bytes ℕ
register = (codes "ann", 1) ∷ (codes "bob", 2) ∷ []

search_command-IsSearched_example :
    (found : List ℕ) × ((c : ℕ)
      → (member c found ≡ true)
        ↔ IsWanted searches atoi 2 wanted
            (json.json_integer (pos 7) ∷ [])
            register
            heap.connections
            c)
    × IsSimple found
    × IsSearched searches 2 kinks found heap
        (search_command searches atoi (pos 9_000_000) 2 (codes "{}") register heap)
unfolding ◌-ℤ◌ lookup find_field fields_of eq_bytes list_of nodes_of
search_command-IsSearched_example =
    search_command-IsSearched searches atoi (pos 9_000_000) 2 (codes "{}") register heap wanted
      kinks (json.json_integer (pos 7) ∷ []) refl refl refl (ground arith)

found_ann :
    filter
      (λ c. is_match searches atoi wanted (json.json_integer (pos 7) ∷ []) (heap.connections c))
      (candidates 2 heap.connections register)
    ≡ 1 ∷ []
unfolding filter candidates eq_bytes add array_at find_field fields_of member string_items list_of
    nodes_of c_str lookup kink_items
found_ann = refl
