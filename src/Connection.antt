-- ===== src/Connection.antt =====
-- src/connection.hpp and src/connection.cpp: one client's connection. A message buffer is
-- immutable once queued and stands for its bytes. Of the libev watchers the model keeps
-- whether the last call on them started or stopped them, and what the timer was last set to.
use fserv.Prelude.{
  ℕ, Bool, true, false, ◌||◌, Option, none, List, [], ◌∷◌, ◌++◌, ltb, if◌then◌else◌, length,
}
use fserv.Prelude.Bytes.{Bytes, codes}
use fserv.Prelude.Int.{ℤ, pos}
use fserv.Prelude.Maps.{Map, nat_eq, add, remove}
use fserv.Websocket.{ProtocolVersion, protocol_unknown}
use fserv.Websocket.Frame.{send_text}

-- Times that the source keeps as a `double` of seconds are whole microseconds.
abbrev pub Ticks : Type 0
Ticks = ℤ

pub record Timer : Type 0 where
  pub started : Bool
  pub after : Ticks
  pub repeat : Ticks

pub record Connection : Type 0 where
  pub account_id : ℤ
  pub character_id : ℤ
  pub character_name : Bytes
  pub character_name_lower : Bytes
  pub auth_started : Bool
  pub identified : Bool
  pub admin : Bool
  pub global_moderator : Bool
  pub protocol : ProtocolVersion
  pub client_address : ℕ
  pub closed : Bool
  pub delay_close : Bool
  pub status_message : Bytes
  pub status : Bytes
  pub gender : Bytes
  pub friends : List Bytes
  pub ignores : List Bytes
  pub roles : List Bytes
  pub channel_list : List ℕ
  pub misc_map : Map Bytes Bytes
  pub custom_kink_map : Map Bytes Bytes
  pub infotag_map : Map Bytes Bytes
  pub kink_list : List ℤ
  pub read_buffer : Bytes
  pub write_queue : List Bytes
  pub write_position : ℕ
  pub timers : Map Bytes Ticks
  pub ping_started : Bool
  pub timer_event : Timer
  pub read_started : Bool
  pub write_started : Bool
  pub last_activity : Ticks
  pub debug_l : Option ℕ

-- The constructor. The watchers are set by the listener.
abbrev pub new_connection : Connection
new_connection = record {
  account_id = pos 0;
  character_id = pos 0;
  character_name = [];
  character_name_lower = [];
  auth_started = false;
  identified = false;
  admin = false;
  global_moderator = false;
  protocol = protocol_unknown;
  client_address = 0;
  closed = false;
  delay_close = false;
  status_message = [];
  status = codes "online";
  gender = codes "None";
  friends = [];
  ignores = [];
  roles = [];
  channel_list = [];
  misc_map = [];
  custom_kink_map = [];
  infotag_map = [];
  kink_list = [];
  read_buffer = [];
  write_queue = [];
  write_position = 0;
  timers = [];
  ping_started = false;
  timer_event = record { started = false; after = pos 0; repeat = pos 0 };
  read_started = false;
  write_started = false;
  last_activity = pos 0;
  debug_l = none;
}

abbrev pub max_send_queue_items : ℕ
max_send_queue_items = 150

-- `MessageBuffer::fromString`.
unfoldable pub from_string : Bytes → Bytes
from_string message = send_text message

abbrev enqueue : Bytes → Connection → Connection
enqueue message con = record con {
  write_queue = con.write_queue ++ message ∷ [];
  write_started = true;
}

unfoldable pub send : Bytes → Connection → Connection × Bool
send message con =
    if con.closed || ltb max_send_queue_items (length con.write_queue)
    then (con, false)
    else (enqueue message con, true)

unfoldable pub send_raw : Bytes → Connection → Connection × Bool
send_raw message con = if con.closed then (con, false) else (enqueue message con, true)

unfoldable pub set_delay_close : Connection → Connection
set_delay_close con = record con {
  delay_close = true;
  read_started = false;
  timer_event = record { started = true; after = pos 1_000_000; repeat = pos 1_000_000 };
}

unfoldable pub join_channel : ℕ → Connection → Connection
join_channel channel con = record con { channel_list = add channel con.channel_list }

unfoldable pub leave_channel : ℕ → Connection → Connection
leave_channel channel con = record con { channel_list = remove channel con.channel_list }
