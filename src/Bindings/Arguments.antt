-- ===== src/Bindings/Arguments.antt =====
-- What the checks of arguments in src/flua.hpp and in the Lua library answer: they return or raise,
-- and leave the site as it was.
use fserv.Prelude.{ℕ, ◌≡◌, ◌⊎◌, refl, inl, inr, Bool-cases, false, Option, none, some, List}
use fserv.Prelude.Bytes.{Bytes}
use fserv.Bindings.{
  LuaApi, Pointee, channel_pointer, connection_pointer, neither, Site, returned, raised, Call,
  ◌>>=◌, or_call, arg, type_of, is_light, pointee, check_any, check_string, get_lchan, get_lcon,
  as_channel, as_connection, lua_error,
}

-- A call that only asks: it returns or raises, and the site stays.
abbrev pub Asks : {A : Type 0} → Call A → Site → Type 0
Asks {A} m s = ((a : A) × (m s ≡ returned a s)) ⊎ ((e : Bytes) × (m s ≡ raised e s))

-- A call that raises and leaves the site.
abbrev pub Raises : {A : Type 0} → Call A → Site → Type 0
Raises m s = (e : Bytes) × (m s ≡ raised e s)

-- What raises once its arguments are asked for raises.
pub ask_then :
    {A B : Type 0} (m : Call A) (f : A → Call B) (s : Site)
    → Asks m s
    → ((a : A) → Raises (f a) s)
    → Raises (m >>= f) s
ask_then m f s (inl (a, h)) k = rw (h, ◌>>=◌) (k a)
ask_then m f s (inr (e, h)) k = (e, rw (h, ◌>>=◌) refl)

pub fail_first :
    {A B : Type 0} (m : Call A) (f : A → Call B) (s : Site) → Raises m s → Raises (m >>= f) s
fail_first m f s (e, h) = (e, rw (h, ◌>>=◌) refl)

or_raises :
    {A B : Type 0} (o : Option A) (k : A → Call B) (e : Bytes) (s : Site)
    → ((a : A) → Asks (k a) s)
    → Asks (or_call o k (lua_error e)) s
or_raises none k e s h = inr (e, refl)
or_raises (some a) k e s h = h a

module _ {V : Type 0} (lua : LuaApi V) (args : List V) where
  pub check_any-Asks : (n : ℕ) (s : Site) → Asks (check_any lua args n) s
  unfolding check_any
  check_any-Asks n s = or_raises (arg lua args n) _ _ s λ v. inl (tt, refl)

  pub check_string-Asks : (n : ℕ) (s : Site) → Asks (check_string lua args n) s
  unfolding check_string
  check_string-Asks n s =
      or_raises (arg lua args n) _ _ s
        λ v. or_raises (lua.lua_tostring v) _ _ s λ text. inl (text, refl)

  pub get_lcon-Raises :
      (n : ℕ) (s : Site) → is_light (type_of lua args n) ≡ false → Raises (get_lcon lua args n) s
  unfolding get_lcon
  get_lcon-Raises n s dark = rw dark (_, refl)

  as_channel-Asks : (n : ℕ) (p : Pointee) (s : Site) → Asks (as_channel lua args n p) s
  as_channel-Asks n (channel_pointer c) s = inl (c, refl)
  as_channel-Asks n (connection_pointer k) s = inr (_, refl)
  as_channel-Asks n neither s = inr (_, refl)

  as_connection-Asks : (n : ℕ) (p : Pointee) (s : Site) → Asks (as_connection lua args n p) s
  as_connection-Asks n (channel_pointer c) s = inr (_, refl)
  as_connection-Asks n (connection_pointer k) s = inl (k, refl)
  as_connection-Asks n neither s = inr (_, refl)

  pub get_lchan-Asks : (n : ℕ) (s : Site) → Asks (get_lchan lua args n) s
  unfolding get_lchan
  get_lchan-Asks n s = elim (Bool-cases (is_light (type_of lua args n))) [
    | inl light ↦ rw light (as_channel-Asks n (pointee lua args n) s)
    | inr dark ↦ rw dark (inr (_, refl))
  ]

  pub get_lcon-Asks : (n : ℕ) (s : Site) → Asks (get_lcon lua args n) s
  unfolding get_lcon
  get_lcon-Asks n s = elim (Bool-cases (is_light (type_of lua args n))) [
    | inl light ↦ rw light (as_connection-Asks n (pointee lua args n) s)
    | inr dark ↦ rw dark (inr (_, refl))
  ]

  pub string_at :
      (n : ℕ) (v : V) (text : Bytes) (s : Site)
      → arg lua args n ≡ some v
      → lua.lua_tostring v ≡ some text
      → check_string lua args n s ≡ returned text s
  unfolding check_string
  string_at n v text s at is_text = rw at (rw is_text refl)
