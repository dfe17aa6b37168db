-- ===== src/Tests/Files.antt =====
-- The JSON files of src/server_state.cpp: an empty directory, and a parser of three texts.
use fserv.Prelude.{ℕ, ◌≡◌, refl, true, none, some, [], ◌∷◌, ◌==◌, if◌then◌else◌, arith}
use fserv.Prelude.Bytes.{Bytes, codes, c_str, eq_bytes, lowered, to_lower}
use fserv.Prelude.Int.{pos}
use fserv.Prelude.Maps.{bytes_eq, int_eq, has, member}
use fserv.Json.{Jansson, text}
use fserv.Connection.{new_connection}
use fserv.Channel.{new_channel, ct_public, ct_pubprivate}
use fserv.Channel.Saved.{save_channel, saved_bans}
use fserv.Channel.Saved.Renewed.{IsKeepable}
use fserv.Rooms.{Heap}
use fserv.ServerState.{ServerState, new_server_state}
use fserv.ServerState.Lists.{is_op, drop_timeouts}
use fserv.ServerState.Saved.{
  Loading, joined_lines, saved_root, save_bans, load_bans, save_ops, load_ops, saved_channels,
  saved_channel_root, save_channels, load_channels,
}
use fserv.ServerState.Saved.Bans
use fserv.ServerState.Saved.Ops.{load_ops-save_ops}
use fserv.ServerState.Saved.Rooms.Reloaded
use fserv.Tests.Json.{Json, json, json_with, json_with-IsJansson, array, no_node, nodes_of}

abbrev registers : ServerState
registers = record new_server_state {
  ban_list = (pos 4, codes "Eve") ∷ [];
  timeout_list =
      (pos 5, record { character = codes "Mal"; end = pos 90 })
      ∷ (pos 6, record { character = codes "Sid"; end = pos 10 })
      ∷ [];
  op_list = codes "Ann" ∷ [];
  channel_map = (codes "club", 3) ∷ (codes "adh-1", 4) ∷ [];
}

-- The text is a bracket over two lines.
abbrev brackets : Bytes
brackets = codes "{\n}"

-- A library that reads that text as the value given.
abbrev bracketed : Json → Jansson Json
bracketed root =
    json_with (λ s. if eq_bytes s (codes "{}") then some root else none) (λ v. brackets)

bracketed-parses :
    (root : Json) → (bracketed root).json_loads (c_str (joined_lines brackets)) ≡ some root
unfolding c_str joined_lines eq_bytes
bracketed-parses root = refl

-- What is saved at the time 60; one of the timeouts has ended.
abbrev ban_root : Json
ban_root =
    saved_root json
      (record registers { timeout_list = drop_timeouts (pos 60) registers.timeout_list })

abbrev bans_json : Jansson Json
bans_json = bracketed ban_root

load_bans-save_bans_example :
    Bans.IsReloaded bans_json (json_with-IsJansson _ _) (pos 60) registers new_server_state (
      load_bans bans_json
        (save_bans bans_json (λ name. true) (pos 60) registers []).1
        new_server_state)
unfolding save_bans has
load_bans-save_bans_example =
    Bans.load_bans-save_bans bans_json (json_with-IsJansson _ _) (λ name. true) (pos 60) registers
      new_server_state [] refl (bracketed-parses ban_root) (refl, tt) (refl, (refl, tt))

-- The text of an empty list has one line.
abbrev print_list : Json → Bytes
print_list (array no_node) = codes "[]"
print_list _ = codes "[\nA]"

abbrev ops_json : Jansson Json
ops_json =
    json_with
      (λ s.
        some
          (json.json_array (if eq_bytes s (codes "[]") then [] else text json (codes "Ann") ∷ [])))
      print_list

load_ops-save_ops_example :
    (is_op
        (codes "ANN")
        (load_ops ops_json (save_ops ops_json (λ name. true) registers []) new_server_state)
      ≡ is_op (codes "ANN") registers)
    × (member
          (codes "ANN")
          (load_ops ops_json
            (save_ops ops_json (λ name. true) registers [])
            new_server_state).super_cop_list
        ≡ member (codes "ANN") registers.super_cop_list)
unfolding c_str joined_lines eq_bytes nodes_of
load_ops-save_ops_example =
    load_ops-save_ops ops_json (json_with-IsJansson _ _) (λ name. true) registers new_server_state
      [] (codes "ANN") refl refl refl refl (refl, tt) tt

abbrev rooms : Heap
rooms = record {
  channels = λ c.
      record (new_channel (if c == 3 then codes "Club" else codes "ADH-1")
        (if c == 3 then ct_public else ct_pubprivate)) {
          title = codes "The title";
          moderators = (codes "Ann", record { modder = codes "Bob"; time = pos 5 }) ∷ [];
          bans =
              (codes "eve", record { banner = codes "Ann"; time = pos 10; timeout = pos 0 }) ∷ [];
        };
  connections = λ k. new_connection;
}

abbrev empty : Loading
empty = (
  record { channels = λ c. new_channel [] ct_public; connections = λ k. new_connection },
  0,
  new_server_state,
)

abbrev channel_root : Json
channel_root = saved_channel_root json (pos 60) rooms registers

abbrev channels_json : Jansson Json
channels_json = bracketed channel_root

room-IsKeepable : (c : ℕ) → IsKeepable channels_json (pos 60) (rooms.channels c)
unfolding new_channel has eq_bytes c_str lowered to_lower saved_bans
room-IsKeepable c = record {
  mods_once = (refl, tt);
  mods_plain = (refl, refl, tt);
  bans_once = (refl, tt);
  bans_clean = (refl, refl, tt);
  bans_few = ground arith;
}

load_channels-save_channels_example :
    (l' : Loading) × (load_channels channels_json
        (pos 70)
        (save_channels channels_json (λ name. true) (pos 60) rooms registers [])
        empty
      ≡ some l')
    × Reloaded.IsReloaded channels_json
        (json_with-IsJansson _ _)
        (pos 60)
        (pos 70)
        rooms
        registers
        empty
        l'
unfolding has c_str eq_bytes lowered to_lower saved_channels save_channel new_channel
load_channels-save_channels_example =
    Reloaded.load_channels-save_channels channels_json (json_with-IsJansson _ _) (λ name. true)
      (pos 60) (pos 70) rooms registers [] empty refl (bracketed-parses channel_root)
      (refl, refl, (refl, refl, tt)) (room-IsKeepable 3, (room-IsKeepable 4, tt)) (refl, (refl, tt))
