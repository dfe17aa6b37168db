-- ===== src/Bindings.antt =====
-- src/flua.hpp and what the bindings of the src/lua_*.cpp files share: the Lua library's calls as
-- an interface, the server's state as the bindings see it, and a call of a binding, which returns,
-- raises a Lua error or faults. `luaL_error` leaves the function and keeps what was done before.
pub mod Arguments
pub mod Convert
pub mod Channels
pub mod Connections
pub mod Chat
pub mod Http
pub mod Testing
use fserv.Prelude.{
  ℕ, ◌+◌, ◌-◌, Bool, true, false, Option, none, some, List, [], ◌∷◌, ◌++◌, if◌then◌else◌, get_elem?,
}
use fserv.Prelude.Bytes.{Bytes, codes}
use fserv.Prelude.Int.{ℤ}
use fserv.Prelude.Maps.{Map}
use fserv.Connection.{Connection, Ticks}
use fserv.Channel.{Channel}
use fserv.Rooms.{Heap, with_channel, with_connection}
use fserv.ServerState.{ServerState}
use fserv.ServerState.Saved.{Files}

-- What `lua_type` answers; `lua_tother` stands for functions, threads and full userdata.
pub data LuaType : Type 0 where
  lua_tnone lua_tnil lua_tboolean lua_tlightuserdata lua_tnumber lua_tstring lua_ttable lua_tother :
      LuaType

-- What the two `dynamic_cast`s make of a light userdata.
pub data Pointee : Type 0 where
  channel_pointer : ℕ → Pointee
  connection_pointer : ℕ → Pointee
  neither : Pointee

-- Values `V` of a Lua state. `lua_tostring` is `none` for what is neither a string nor a number, and
-- then `luaL_checkstring` raises; so the integer and the number. `lua_next` holds the pairs of
-- a table in the order of its traversal. `lua_integer_text` is what an integer is as a string. `lua_typename` is given a type's code. The three last fields
-- are the messages of the library's own checks for an argument.
pub record LuaApi (V : Type 0) : Type 0 where
  pub lua_type : V → LuaType
  pub lua_touserdata : V → Pointee
  pub lua_tostring : V → Option Bytes
  pub lua_tointeger : V → Option ℤ
  pub lua_tonumber : V → Option Ticks
  pub lua_toboolean : V → Bool
  pub lua_next : V → List (V × V)
  pub lua_integer_text : ℤ → Bytes
  pub lua_typename : ℕ → Bytes
  pub value_expected : ℕ → Bytes
  pub string_expected : ℕ → Bytes
  pub number_expected : ℕ → Bytes

-- What a binding pushes for the script.
pub data Item : Type 0 where
  nil : Item
  boolean : Bool → Item
  integer : ℤ → Item
  number : Ticks → Item
  string : Bytes → Item
  channel : ℕ → Item
  connection : ℕ → Item

-- A table is an array of items or has a field for each name.
pub data Pushed : Type 0 where
  item : Item → Pushed
  array : List Item → Pushed
  table : List (Bytes × Item) → Pushed

pub data RedisMethod : Type 0 where
  redis_del redis_lpush redis_sadd redis_srem : RedisMethod

pub record RedisRequest : Type 0 where
  pub method : RedisMethod
  pub key : Bytes
  pub values : List Bytes

-- `HTTPRequest`, with what the bindings set.
pub record HttpRequest : Type 0 where
  pub method : Bytes
  pub url : Bytes
  pub callback_name : Bytes
  pub connection : Option ℕ
  pub extras : Map Bytes Bytes
  pub post_fields : Map Bytes Bytes

-- A message that is sent again until its time.
pub record Cached : Type 0 where
  pub cache_time : ℤ
  pub cached_message : Bytes

-- The objects, the number that the next new channel gets, the registers, the two messages that
-- `sendCHA` and `sendORS` keep, the files and the requests that were queued for Redis and for HTTP.
pub record Site : Type 0 where
  pub heap : Heap
  pub next : ℕ
  pub state : ServerState
  pub public_list : Cached
  pub private_list : Cached
  pub files : Files
  pub redis : List RedisRequest
  pub http : List HttpRequest

pub data Outcome (A : Type 0) : Type 0 where
  returned : A → Site → Outcome A
  raised : Bytes → Site → Outcome A
  faulted : Outcome A

abbrev pub Call : Type 0 → Type 0
Call A = Site → Outcome A

infixl 5 ◌>>=◌ ◌>>◌
abbrev pub ◌>>=◌ : {A B : Type 0} → Call A → (A → Call B) → Call B
◌>>=◌ m f s = elim (m s) [
  | returned a s' ↦ f a s'
  | raised message s' ↦ raised message s'
  | faulted ↦ faulted
]

abbrev pub ◌>>◌ : {B : Type 0} → Call (Unit {0}) → Call B → Call B
m >> k = m >>= λ _. k

abbrev pub pure : {A : Type 0} → A → Call A
pure a s = returned a s

-- `luaL_error`
abbrev pub lua_error : {A : Type 0} → Bytes → Call A
lua_error message s = raised message s

abbrev pub fault : {A : Type 0} → Call A
fault s = faulted

abbrev pub get_site : Call Site
get_site s = returned s s

abbrev pub put_site : Site → Call (Unit {0})
put_site s' s = returned tt s'

abbrev pub on_heap : (Heap → Heap) → Call (Unit {0})
on_heap f s = returned tt (record s { heap = f s.heap })

abbrev pub on_state : (ServerState → ServerState) → Call (Unit {0})
on_state f s = returned tt (record s { state = f s.state })

abbrev pub on_channel : ℕ → (Channel → Channel) → Call (Unit {0})
on_channel c f = on_heap (with_channel c f)

abbrev pub on_connection : ℕ → (Connection → Connection) → Call (Unit {0})
on_connection k f = on_heap (with_connection k f)

abbrev pub channel_of : ℕ → Call Channel
channel_of c s = returned (s.heap.channels c) s

abbrev pub connection_of : ℕ → Call Connection
connection_of k s = returned (s.heap.connections k) s

-- The value or else.
abbrev pub or_call {ℓ} : {A : Type ℓ} {B : Type 0} → Option A → (A → Call B) → Call B → Call B
or_call none f otherwise = otherwise
or_call (some a) f otherwise = f a

-- The decimal digit of an argument's index, which is below ten.
abbrev digit : ℕ → Bytes
digit n = (48 + n) ∷ []

abbrev pub is_light : LuaType → Bool
is_light lua_tlightuserdata = true
is_light _ = false

-- The arguments stand on the stack, the first at the bottom.
module _ {V : Type 0} (lua : LuaApi V) (args : List V) where
  abbrev pub arg : ℕ → Option V
  arg n = get_elem? args (n - 1)

  abbrev pub type_of : ℕ → LuaType
  type_of n = elim (arg n) [ none ↦ lua_tnone | some v ↦ lua.lua_type v ]

  -- `luaL_checkany`
  unfoldable pub check_any : ℕ → Call (Unit {0})
  check_any n = or_call (arg n) (λ v. pure tt) (lua_error (lua.value_expected n))

  unfoldable pub check_string : ℕ → Call Bytes
  check_string n =
      or_call (arg n) (λ v. or_call (lua.lua_tostring v) pure (lua_error (lua.string_expected n)))
        (lua_error (lua.string_expected n))

  unfoldable pub check_integer : ℕ → Call ℤ
  check_integer n =
      or_call (arg n) (λ v. or_call (lua.lua_tointeger v) pure (lua_error (lua.number_expected n)))
        (lua_error (lua.number_expected n))

  unfoldable pub check_number : ℕ → Call Ticks
  check_number n =
      or_call (arg n) (λ v. or_call (lua.lua_tonumber v) pure (lua_error (lua.number_expected n)))
        (lua_error (lua.number_expected n))

  -- A `std::string` made of `lua_tostring`, which faults on a null pointer.
  unfoldable pub to_string : ℕ → Call Bytes
  to_string n = or_call (arg n) (λ v. or_call (lua.lua_tostring v) pure fault) fault

  abbrev pub to_boolean : ℕ → Bool
  to_boolean n = elim (arg n) [ none ↦ false | some v ↦ lua.lua_toboolean v ]

  abbrev not_a : ℕ → Bytes → Bytes
  not_a n what = codes " Argument " ++ digit n ++ codes " was not a " ++ what

  abbrev pub pointee : ℕ → Pointee
  pointee n = elim (arg n) [ none ↦ neither | some v ↦ lua.lua_touserdata v ]

  abbrev pub as_channel : ℕ → Pointee → Call ℕ
  as_channel n (channel_pointer c) = pure c
  as_channel n _ = lua_error (codes "#2" ++ not_a n (codes "Channel."))

  abbrev pub as_connection : ℕ → Pointee → Call ℕ
  as_connection n (connection_pointer k) = pure k
  as_connection n _ = lua_error (codes "#2" ++ not_a n (codes "ConnectionPtr."))

  -- `GETLCHAN`; `lua_typename` is given the index.
  unfoldable pub get_lchan : ℕ → Call ℕ
  get_lchan n =
      if is_light (type_of n)
      then as_channel n (pointee n)
      else lua_error (codes "#1" ++ not_a n (codes "Channel was a ") ++ lua.lua_typename n)

  -- `GETLCON`
  unfoldable pub get_lcon : ℕ → Call ℕ
  get_lcon n =
      if is_light (type_of n)
      then as_connection n (pointee n)
      else lua_error (codes "#1" ++ not_a n (codes "ConnectionPtr was a ") ++ lua.lua_typename n)

abbrev pub Binding : Type 0 → Type 0
Binding V = List V → Call (List Pushed)

-- What a binding without results returns.
abbrev pub nothing : Call (List Pushed)
nothing = pure []

abbrev pub answer : Item → Call (List Pushed)
answer i = pure (item i ∷ [])

-- A name or a connection as an argument: `by_string` and `by_connection` go on.
module _ {V : Type 0} (lua : LuaApi V) (args : List V) {A : Type 0} where
  unfoldable pub by_name : ℕ → (ℕ → Call A) → (Bytes → Call A) → Bytes → Call A
  unfolding get_lcon to_string
  by_name n by_connection by_string message = elim (type_of lua args n) [
    | lua_tlightuserdata ↦ do con ← get_lcon lua args n; by_connection con
    | lua_tstring ↦ do name ← to_string lua args n; by_string name
    | _ ↦ lua_error message
  ]
