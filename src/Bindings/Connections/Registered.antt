-- ===== src/Bindings/Connections/Registered.antt =====
-- The functions of src/lua_connection.cpp that register a connection or take it off the register
-- keep the register's counts.
use fserv.Prelude.{
  ℕ, ◌==◌, ==_iff, ◌≡◌, refl, Bool, true, false, Bool-cases, inl, inr, some, List, [], ◌∷◌,
  if◌then◌else◌,
}
use fserv.Prelude.Bytes.{Bytes}
use fserv.Prelude.Maps.{Map, bytes_eq, has}
use fserv.Connection.{Connection, set_delay_close}
use fserv.Rooms.{Heap, with_connection}
use fserv.ServerState.{ServerState, add_connection, add_unidentified, removed_unidentified}
use fserv.ServerState.Users.{
  IsAccounted, from_address, add_connection-IsAccounted, remove_connection-IsAccounted,
}
use fserv.Bindings.{
  LuaApi, boolean, answer, put_site, ◌>>◌, arg, Site, Outcome, returned, raised, faulted, Call,
  ◌>>=◌, check_any, check_string, get_lcon,
}
use fserv.Bindings.Arguments.{Asks, check_any-Asks, check_string-Asks, get_lcon-Asks, string_at}
use fserv.Bindings.Connections.Sets.{add_request}
use fserv.Bindings.Connections.Session.{identify, force_close, set_ident, closef}

from_address-same :
    (cons cons' : ℕ → Connection) (addr : ℕ) (m : Map Bytes ℕ)
    → ((k : ℕ) → (cons' k).client_address ≡ (cons k).client_address)
    → from_address cons' addr m ≡ from_address cons addr m
from_address-same cons cons' addr [] same = refl
from_address-same cons cons' addr ((name, k) ∷ m) same =
    rw (same k) (rw (from_address-same cons cons' addr m same) refl)

moved_IsAccounted :
    (h : Heap) (k : ℕ) (f : Connection → Connection) (s : ServerState)
    → ((con : Connection) → (f con).client_address ≡ con.client_address)
    → IsAccounted h s
    → IsAccounted (with_connection k f h) s
moved_IsAccounted h k f s same v = record {
  distinct = v.distinct;
  users = v.users;
  most = v.most;
  per_address = λ addr.
      rw
        (from_address-same h.connections (with_connection k f h).connections addr s.connection_map
          λ i. elim (Bool-cases (k == i)) [
            | inl e ↦ rw e (rw (← (==_iff k i).0 e) (same (h.connections k)))
            | inr e ↦ rw e refl
          ])
        (v.per_address addr);
}

abbrev pub Counted : Site → Type 0
Counted s = IsAccounted s.heap s.state

abbrev pub StaysCounted : {A : Type 0} → Outcome A → Type 0
StaysCounted (returned a s) = Counted s
StaysCounted (raised message s) = Counted s
StaysCounted faulted = Unit {0}

ask_then :
    {A B : Type 0} (m : Call A) (f : A → Call B) (s : Site)
    → Counted s
    → Asks m s
    → ((a : A) → StaysCounted (f a s))
    → StaysCounted ((m >>= f) s)
ask_then m f s g (inl (a, h)) k = rw (h, ◌>>=◌) (k a)
ask_then m f s g (inr (e, h)) k = rw (h, ◌>>=◌) g

-- The list of the unidentified does not count.
unlisted :
    (h : Heap) (list : List ℕ) (s : ServerState)
    → IsAccounted h s
    → IsAccounted h (record s { unidentified_list = list })
unlisted h list s v = record {
  distinct = v.distinct;
  users = v.users;
  most = v.most;
  per_address = v.per_address;
}

abbrev named : Bytes → Bytes → Connection → Connection
named name lowername con = record con {
  identified = true;
  character_name = name;
  character_name_lower = lowername;
}

named-IsAccounted :
    (k : ℕ) (name lowername : Bytes) (s : Site)
    → has lowername s.state.connection_map ≡ false
    → Counted s
    → let h = with_connection k (named name lowername) s.heap in
      IsAccounted h (removed_unidentified k (add_connection h lowername k s.state))
unfolding removed_unidentified
named-IsAccounted k name lowername s out v =
    let h = with_connection k (named name lowername) s.heap in
    unlisted h _ (add_connection h lowername k s.state) (
      add_connection-IsAccounted h lowername k s.state out
        (moved_IsAccounted s.heap k (named name lowername) s.state (λ con. refl) v))

identify-Counted :
    (got : Bool) (k : ℕ) (name lowername : Bytes) (s : Site)
    → has lowername s.state.connection_map ≡ false
    → Counted s
    → Counted (identify got k name lowername s)
unfolding identify add_request
identify-Counted true k name lowername s out v = named-IsAccounted k name lowername s out v
identify-Counted false k name lowername s out v = named-IsAccounted k name lowername s out v

force_close-Counted : (k : ℕ) (s : Site) → Counted s → Counted (force_close k s)
unfolding force_close add_unidentified
force_close-Counted k s v =
    let f : Connection → Connection = λ con. record (set_delay_close con) { identified = false } in
    let h = with_connection k f s.heap in
    remove_connection-IsAccounted h _ (add_unidentified k s.state) (
      unlisted h _ s.state
        (moved_IsAccounted s.heap k f s.state (λ con. unfold set_delay_close in refl) v))

module _ {V : Type 0} (lua : LuaApi V) where
  identified_StaysCounted :
      (got : Bool) (k : ℕ) (name lowername : Bytes) (s : Site)
      → has lowername s.state.connection_map ≡ false
      → Counted s
      → (b : Bool)
      → StaysCounted (
          (if b
              then answer (boolean false)
              else put_site (identify got k name lowername s) >> answer (boolean true))
            s)
  identified_StaysCounted got k name lowername s out v true = v
  identified_StaysCounted got k name lowername s out v false =
      identify-Counted got k name lowername s out v

  -- If the counts are those of the register and nobody is registered under the lower-case name,
  -- then they are so again after `setIdent`, whether it registers the connection, refuses or raises.
  pub set_ident-StaysCounted :
      (got : Bool) (args : List V) (v : V) (lowername : Bytes) (s : Site)
      → arg lua args 3 ≡ some v
      → lua.lua_tostring v ≡ some lowername
      → has lowername s.state.connection_map ≡ false
      → Counted s
      → StaysCounted (set_ident lua got args s)
  unfolding set_ident
  set_ident-StaysCounted got args v lowername s at text out g =
      ask_then (check_any lua args 3) _ s g (check_any-Asks lua args 3 s) λ _.
        ask_then (get_lcon lua args 1) _ s g (get_lcon-Asks lua args 1 s) λ k.
          ask_then (check_string lua args 2) _ s g (check_string-Asks lua args 2 s) λ name.
            rw (string_at lua args 3 v lowername s at text, ◌>>=◌)
              (identified_StaysCounted got k name lowername s out g
                (s.heap.connections k).identified)

  -- If the counts are those of the register, then they are so again after `closef`, which takes
  -- off the register whoever has the connection's name.
  closef-StaysCounted : (args : List V) (s : Site) → Counted s → StaysCounted (closef lua args s)
  unfolding closef
  closef-StaysCounted args s g =
      ask_then (check_any lua args 1) _ s g (check_any-Asks lua args 1 s) λ _.
        ask_then (get_lcon lua args 1) _ s g (get_lcon-Asks lua args 1 s)
          λ k. force_close-Counted k s g
