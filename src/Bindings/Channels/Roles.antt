-- ===== src/Bindings/Channels/Roles.antt =====
-- Who gets the role of a channel operator from `addMod` of src/lua_channel.cpp.
use fserv.Prelude.{ℕ, ◌≡◌, ◌≢◌, refl, true, Bool-cases, inl, inr, none, some, List}
use fserv.Prelude.Bytes.{Bytes, lowered}
use fserv.Prelude.Int.{ℤ}
use fserv.Prelude.Maps.{Map, bytes_eq, has, lookup_absent}
use fserv.Channel
use fserv.Channel.{Channel}
use fserv.Rooms.{with_channel}
use fserv.ServerState.{get_connection}
use fserv.ServerState.Channels.{is_public, rebuild_channel_op_list}
use fserv.Bindings.{
  LuaApi, Site, Outcome, returned, raised, faulted, Call, ◌>>=◌, arg, check_any, check_string,
  get_lchan, get_lcon,
}
use fserv.Bindings.Arguments.{Asks, check_any-Asks, get_lchan-Asks, get_lcon-Asks, string_at}
use fserv.Bindings.Channels.Members.{add_mod, mod_changed, give_cop}

-- Every name in the register is in lower case, as `setIdent` is given it.
abbrev pub LowerKeys : Map Bytes ℕ → Type 0
LowerKeys m = (name : Bytes) → has name m ≡ true → lowered name ≡ name

-- The connections are what they were, however the call ends.
abbrev pub KeepsConnections : {A : Type 0} → Site → Outcome A → Type 0
KeepsConnections s (returned a t) = t.heap.connections ≡ s.heap.connections
KeepsConnections s (raised message t) = t.heap.connections ≡ s.heap.connections
KeepsConnections s faulted = Unit {0}

then_connections :
    {A B : Type 0} (m : Call A) (f : A → Call B) (s : Site)
    → Asks m s
    → ((a : A) → KeepsConnections s (f a s))
    → KeepsConnections s ((m >>= f) s)
then_connections m f s (inl (a, h)) k = rw (h, ◌>>=◌) (k a)
then_connections m f s (inr (e, h)) k = rw (h, ◌>>=◌) refl

then_returned :
    {A B : Type 0} (m : Call A) (f : A → Call B) (a : A) (s : Site)
    → m s ≡ returned a s
    → KeepsConnections s (f a s)
    → KeepsConnections s ((m >>= f) s)
then_returned m f a s h k = rw (h, ◌>>=◌) k

not_registered :
    (dest : Bytes) (s : Site)
    → LowerKeys s.state.connection_map
    → lowered dest ≢ dest
    → get_connection dest s.state ≡ none
unfolding get_connection
not_registered dest s lower mixed = elim (Bool-cases (has dest s.state.connection_map)) [
  | inl e ↦ absurd (mixed (lower dest e))
  | inr e ↦ lookup_absent dest s.state.connection_map e
]

mod_changed-connections :
    (chan : ℕ) (dest : Bytes) (s : Site)
    → get_connection dest s.state ≡ none
    → (mod_changed chan dest give_cop s).heap.connections ≡ s.heap.connections
unfolding rebuild_channel_op_list get_connection
mod_changed-connections chan dest s out = elim (Bool-cases (is_public (s.heap.channels chan))) [
  | inl e ↦ rw e (rw out refl)
  | inr e ↦ rw e refl
]

module _ {V : Type 0} (lua : LuaApi V) where
  -- Let every name in the register be in lower case, and let the third argument be a name that is
  -- not. Then `addMod` changes no connection, so nobody gets the role of a channel operator.
  pub add_mod-KeepsConnections :
      (now : ℤ) (args : List V) (v : V) (dest : Bytes) (s : Site)
      → LowerKeys s.state.connection_map
      → arg lua args 3 ≡ some v
      → lua.lua_tostring v ≡ some dest
      → lowered dest ≢ dest
      → KeepsConnections s (add_mod lua now args s)
  unfolding add_mod
  add_mod-KeepsConnections now args v dest s lower at text mixed =
      then_connections (check_any lua args 3) _ s (check_any-Asks lua args 3 s) λ _.
        then_connections (get_lchan lua args 1) _ s (get_lchan-Asks lua args 1 s) λ c.
          then_connections (get_lcon lua args 2) _ s (get_lcon-Asks lua args 2 s) λ k.
            then_returned (check_string lua args 3) _ dest s (string_at lua args 3 v dest s at text)
              (mod_changed-connections c dest
                (record s {
                  heap = with_channel c (Channel.add_mod now (s.heap.connections k) dest) s.heap;
                })
                (not_registered dest s lower mixed))
