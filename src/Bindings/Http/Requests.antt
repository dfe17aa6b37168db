-- ===== src/Bindings/Http/Requests.antt =====
-- Which requests the bindings of src/lua_http.cpp queue.
use fserv.Prelude.{◌≡◌, refl, Bool, true, false, List, [], ◌∷◌}
use fserv.Prelude.Bytes.{Bytes}
use fserv.Bindings.{LuaApi, Site, type_of, is_light, check_any, check_string, get_lcon}
use fserv.Bindings.Arguments.{
  Raises, ask_then, fail_first, check_any-Asks, check_string-Asks, get_lcon-Raises,
}
use fserv.Bindings.Http.{
  get_request, post_request, third_connection, fourth_connection, table_to_map, extras_at,
}

module _ {V : Type 0} (lua : LuaApi V) where
  third_connection-Raises :
      (args : List V) (s : Site)
      → is_light (type_of lua args 3) ≡ true
      → is_light (type_of lua args 4) ≡ false
      → Raises (third_connection lua args) s
  unfolding third_connection
  third_connection-Raises args s light dark =
      rw light (fail_first (get_lcon lua args 4) _ s (get_lcon-Raises lua args 4 s dark))

  -- A request with a connection as its third argument and no light userdata as its fourth raises
  -- an error, and nothing is queued or changed.
  pub get_request-Raises :
      (got : Bool) (args : List V) (s : Site)
      → is_light (type_of lua args 3) ≡ true
      → is_light (type_of lua args 4) ≡ false
      → Raises (get_request lua got args) s
  unfolding get_request
  get_request-Raises got args s light dark =
      ask_then (check_any lua args 4) _ s (check_any-Asks lua args 4 s) λ _.
        ask_then (check_string lua args 1) _ s (check_string-Asks lua args 1 s) λ _.
          ask_then (check_string lua args 2) _ s (check_string-Asks lua args 2 s) λ _.
            fail_first (third_connection lua args) _ s (third_connection-Raises args s light dark)

  -- With five arguments the fifth, the table of extras, makes no difference, whether to the
  -- request that is queued, to an error or to what is returned.
  pub post_request-fifth :
      (escape : Bytes → Bytes) (got : Bool) (callback url post con extras other : V) (s : Site)
      → post_request lua escape got (callback ∷ url ∷ post ∷ con ∷ extras ∷ []) s
        ≡ post_request lua escape got (callback ∷ url ∷ post ∷ con ∷ other ∷ []) s
  unfolding post_request check_any table_to_map check_string fourth_connection get_lcon extras_at
  post_request-fifth escape got callback url post con extras other s = refl
