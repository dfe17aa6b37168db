-- ===== src/Bindings/Channels/Sound/Calls.antt =====
-- What keeps channels and connections in agreement, for the pieces that the functions of
-- src/lua_channel.cpp are made of.
use fserv.Prelude.{ℕ, Bool, true, false, Option, none, some, List, if◌then◌else◌}
use fserv.Prelude.Bytes.{Bytes}
use fserv.Prelude.Int.{ℤ}
use fserv.Connection.{Ticks}
use fserv.Channel.{Channel}
use fserv.Bindings.{
  LuaApi, LuaType, lua_tnone, lua_tnil, lua_tboolean, lua_tlightuserdata, lua_tnumber, lua_tstring,
  lua_ttable, lua_tother, Pointee, channel_pointer, connection_pointer, neither, Site, Outcome,
  returned, raised, faulted, Call, ◌>>=◌, or_call, on_channel, arg, type_of, pointee, is_light,
  check_any, check_string, check_integer, check_number, to_string, get_lchan, get_lcon, as_channel,
  as_connection, by_name,
}
use fserv.Bindings.Channels.Sound.{IsSound, Settled, with_channel-IsSound}

abbrev pub Good : Site → Type 0
Good s = IsSound s.heap s.next

abbrev pub After : {A : Type 0} → Outcome A → Type 0
After (returned a s) = Good s
After (raised message s) = Good s
After faulted = Unit {0}

-- Wherever it ends, channels and connections agree if they did before.
abbrev pub Keeps : {A : Type 0} → Call A → Type 0
Keeps m = (s : Site) → Good s → After (m s)

go_on :
    {A B : Type 0} (o : Outcome A) (f : A → Call B)
    → After o
    → ((a : A) → Keeps (f a))
    → After (elim o [
      | returned a s' ↦ f a s'
      | raised message s' ↦ raised message s'
      | faulted ↦ faulted
    ])
go_on (returned a s) f g k = k a s g
go_on (raised message s) f g k = g
go_on faulted f g k = tt

pub then_Keeps :
    {A B : Type 0} (m : Call A) (f : A → Call B)
    → Keeps m
    → ((a : A) → Keeps (f a))
    → Keeps (m >>= f)
then_Keeps m f g k s good = go_on (m s) f (g s good) k

pub either_Keeps :
    {A : Type 0} (b : Bool) (x y : Call A) → Keeps x → Keeps y → Keeps (if b then x else y)
either_Keeps true x y g h = g
either_Keeps false x y g h = h

pub or_Keeps :
    {A B : Type 0} (o : Option A) (k : A → Call B) (otherwise : Call B)
    → ((a : A) → Keeps (k a))
    → Keeps otherwise
    → Keeps (or_call o k otherwise)
or_Keeps none k otherwise g h = h
or_Keeps (some a) k otherwise g h = g a

pub on_channel-Keeps :
    (c : ℕ) (f : Channel → Channel) → ((ch : Channel) → Settled ch (f ch)) → Keeps (on_channel c f)
on_channel-Keeps c f settled s good =
    with_channel-IsSound c f s.heap s.next (settled (s.heap.channels c)) good

module _ {V : Type 0} (lua : LuaApi V) (args : List V) where
  pub check_any-Keeps : (n : ℕ) → Keeps (check_any lua args n)
  unfolding check_any
  check_any-Keeps n = or_Keeps (arg lua args n) _ _ (λ v s g. g) λ s g. g

  pub check_string-Keeps : (n : ℕ) → Keeps (check_string lua args n)
  unfolding check_string
  check_string-Keeps n =
      or_Keeps (arg lua args n) _ _ (λ v. or_Keeps (lua.lua_tostring v) _ _ (λ t s g. g) λ s g. g)
        λ s g. g

  pub check_integer-Keeps : (n : ℕ) → Keeps (check_integer lua args n)
  unfolding check_integer
  check_integer-Keeps n =
      or_Keeps (arg lua args n) _ _ (λ v. or_Keeps (lua.lua_tointeger v) _ _ (λ t s g. g) λ s g. g)
        λ s g. g

  pub check_number-Keeps : (n : ℕ) → Keeps (check_number lua args n)
  unfolding check_number
  check_number-Keeps n =
      or_Keeps (arg lua args n) _ _ (λ v. or_Keeps (lua.lua_tonumber v) _ _ (λ t s g. g) λ s g. g)
        λ s g. g

  to_string-Keeps : (n : ℕ) → Keeps (to_string lua args n)
  unfolding to_string
  to_string-Keeps n =
      or_Keeps (arg lua args n) _ _ (λ v. or_Keeps (lua.lua_tostring v) _ _ (λ t s g. g) λ s g. tt)
        λ s g. tt

  as_channel-Keeps : (n : ℕ) (p : Pointee) → Keeps (as_channel lua args n p)
  as_channel-Keeps n (channel_pointer c) s g = g
  as_channel-Keeps n (connection_pointer k) s g = g
  as_channel-Keeps n neither s g = g

  as_connection-Keeps : (n : ℕ) (p : Pointee) → Keeps (as_connection lua args n p)
  as_connection-Keeps n (channel_pointer c) s g = g
  as_connection-Keeps n (connection_pointer k) s g = g
  as_connection-Keeps n neither s g = g

  pub get_lchan-Keeps : (n : ℕ) → Keeps (get_lchan lua args n)
  unfolding get_lchan
  get_lchan-Keeps n =
      either_Keeps (is_light (type_of lua args n)) _ _ (as_channel-Keeps n (pointee lua args n))
        λ s g. g

  pub get_lcon-Keeps : (n : ℕ) → Keeps (get_lcon lua args n)
  unfolding get_lcon
  get_lcon-Keeps n =
      either_Keeps (is_light (type_of lua args n)) _ _ (as_connection-Keeps n (pointee lua args n))
        λ s g. g

  by_type_Keeps :
      {A : Type 0} (t : LuaType) (x y z : Call A)
      → Keeps x
      → Keeps y
      → Keeps z
      → Keeps (elim t [ lua_tlightuserdata ↦ x | lua_tstring ↦ y | _ ↦ z ])
  by_type_Keeps lua_tlightuserdata x y z g h i = g
  by_type_Keeps lua_tstring x y z g h i = h
  by_type_Keeps lua_tnone x y z g h i = i
  by_type_Keeps lua_tnil x y z g h i = i
  by_type_Keeps lua_tboolean x y z g h i = i
  by_type_Keeps lua_tnumber x y z g h i = i
  by_type_Keeps lua_ttable x y z g h i = i
  by_type_Keeps lua_tother x y z g h i = i

  pub by_name-Keeps :
      {A : Type 0} (n : ℕ) (f : ℕ → Call A) (g : Bytes → Call A) (message : Bytes)
      → ((k : ℕ) → Keeps (f k))
      → ((name : Bytes) → Keeps (g name))
      → Keeps (by_name lua args n f g message)
  unfolding by_name
  by_name-Keeps n f g message fk gk =
      by_type_Keeps (type_of lua args n) _ _ _
        (then_Keeps (get_lcon lua args n) f (get_lcon-Keeps n) fk)
        (then_Keeps (to_string lua args n) g (to_string-Keeps n) gk) λ s h. h

  module _ {B : Type 0} where
    pub any_then :
        (n : ℕ) (f : Unit {0} → Call B)
        → ((u : Unit {0}) → Keeps (f u))
        → Keeps (check_any lua args n >>= f)
    any_then n f = then_Keeps (check_any lua args n) f (check_any-Keeps n)

    pub string_then :
        (n : ℕ) (f : Bytes → Call B)
        → ((t : Bytes) → Keeps (f t))
        → Keeps (check_string lua args n >>= f)
    string_then n f = then_Keeps (check_string lua args n) f (check_string-Keeps n)

    pub integer_then :
        (n : ℕ) (f : ℤ → Call B) → ((i : ℤ) → Keeps (f i)) → Keeps (check_integer lua args n >>= f)
    integer_then n f = then_Keeps (check_integer lua args n) f (check_integer-Keeps n)

    pub number_then :
        (n : ℕ) (f : Ticks → Call B)
        → ((x : Ticks) → Keeps (f x))
        → Keeps (check_number lua args n >>= f)
    number_then n f = then_Keeps (check_number lua args n) f (check_number-Keeps n)

    pub lchan_then :
        (n : ℕ) (f : ℕ → Call B) → ((c : ℕ) → Keeps (f c)) → Keeps (get_lchan lua args n >>= f)
    lchan_then n f = then_Keeps (get_lchan lua args n) f (get_lchan-Keeps n)

    pub lcon_then :
        (n : ℕ) (f : ℕ → Call B) → ((k : ℕ) → Keeps (f k)) → Keeps (get_lcon lua args n >>= f)
    lcon_then n f = then_Keeps (get_lcon lua args n) f (get_lcon-Keeps n)
