-- ===== src/NativeCommand/Search.antt =====
-- `SearchCommand` of src/native_command.cpp and the two filters above it. `atoi` is the C
-- library's; a C string stands for what `json_string_value` points to.
pub mod Alike
pub mod Candidates
pub mod Wanted
pub mod Found
use fserv.Prelude.{
  ℕ, ◌+◌, ◌-◌, ◌%◌, ◌^◌, Bool, true, false, not, ◌&&◌, ◌||◌, Option, none, some, List, [], ◌∷◌,
  ◌++◌, ◌==◌, ltb, if◌then◌else◌, length, is_empty, ◌>>=◌,
}
use fserv.Prelude.Bytes.{Bytes, codes, eq_bytes, c_str}
use fserv.Prelude.Int.{ℤ, pos, negsuc, sub_ℕ, ◌-ℤ◌, ltb_ℤ}
use fserv.Prelude.Maps.{Map, bytes_eq, int_eq, nat_eq, lookup, insert, has, member, add}
use fserv.Json.{Jansson, given, text, c_string_value, array_at}
use fserv.Connection.{Connection, Ticks, from_string, send}
use fserv.Rooms.{Heap, with_connection}
use fserv.Server.Errors.{
  ferr_ok, ferr_bad_syntax, ferr_no_search_results, ferr_throttle_search,
  ferr_too_many_search_terms, ferr_too_many_search_results,
}

-- `infotagMap[item]`, which is empty where the item is missing.
abbrev pub tag : Bytes → Connection → Bytes
tag item con = given [] (lookup item con.infotag_map)

-- The `[]` leaves the empty text under an item that was missing.
abbrev pub touch : Bytes → Connection → Connection
touch item con = record con { infotag_map = insert item (tag item con) con.infotag_map }

-- The cast to `int`.
abbrev int_of_word : ℕ → ℤ
int_of_word w = if ltb w (2 ^ 31) then pos w else sub_ℕ w (2 ^ 32)

unfoldable pub to_int : ℤ → ℤ
to_int (pos n) = int_of_word (n % 2 ^ 32)
to_int (negsuc n) = int_of_word (2 ^ 32 - 1 - n % 2 ^ 32)

-- The loop of `SearchFilterList` over the connections.
unfoldable pub filter_tags : Bytes → List Bytes → List ℕ → Heap → Heap × List ℕ
filter_tags item items [] h = (h, [])
filter_tags item items (c ∷ cs) h =
    let rest = filter_tags item items cs (with_connection c (touch item) h) in
    (rest.0, if member (tag item (h.connections c)) items then c ∷ rest.1 else rest.1)

abbrev pub has_kinks : List ℤ → Connection → Bool
has_kinks [] con = true
has_kinks (n ∷ items) con = member n con.kink_list && has_kinks items con

-- The loop of `SearchFilterListF` over the connections.
unfoldable pub filter_kinks : List ℤ → List ℕ → Heap → List ℕ
filter_kinks items [] h = []
filter_kinks items (c ∷ cs) h =
    let rest = filter_kinks items cs h in
    if has_kinks items (h.connections c) then c ∷ rest else rest

abbrev pub is_searchable : Connection → Bool
is_searchable con =
    not (is_empty con.kink_list)
    && (eq_bytes con.status (codes "online") || eq_bytes con.status (codes "looking"))

-- Everyone who may be found, but the one who asks.
unfoldable pub candidates : ℕ → (ℕ → Connection) → Map Bytes ℕ → List ℕ
candidates k cons [] = []
candidates k cons ((name, c) ∷ m) =
    let rest = candidates k cons m in
    if not (c == k) && is_searchable (cons c) then add c rest else rest

abbrev pub search_timeout : Ticks
search_timeout = pos 5_000_000

-- The payload's lists, with the infotag that each is about.
abbrev pub search_tags : List (Bytes × Bytes)
search_tags =
    (codes "genders", codes "Gender")
    ∷ (codes "orientations", codes "Orientation")
    ∷ (codes "languages", codes "Language preference")
    ∷ (codes "furryprefs", codes "Furry preference")
    ∷ (codes "roles", codes "Dom/Sub Role")
    ∷ (codes "positions", codes "Position")
    ∷ []

abbrev pub last_search : Connection → Ticks
last_search con = given (pos 0) (lookup (codes "FKS") con.timers)

abbrev pub set_search : Ticks → Connection → Connection
set_search time con = record con { timers = insert (codes "FKS") time con.timers }

module _ {J : Type 0} (j : Jansson J) where
  -- The strings among the elements.
  unfoldable pub string_items : List J → List Bytes
  string_items [] = []
  string_items (n ∷ nodes) = elim (c_string_value j n) [
    | none ↦ string_items nodes
    | some s ↦ s ∷ string_items nodes
  ]

  unfoldable pub apply_filter : J → Bytes × Bytes → Heap × List ℕ → Heap × List ℕ
  unfolding filter_tags string_items
  apply_filter root (key, item) (h, cs) = elim (array_at j key root) [
    | none ↦ (h, cs)
    | some nodes ↦ filter_tags item (string_items nodes) cs h
  ]

  unfoldable pub apply_filters : J → List (Bytes × Bytes) → Heap × List ℕ → Heap × List ℕ
  unfolding apply_filter
  apply_filters root [] r = r
  apply_filters root (t ∷ tags) r = apply_filters root tags (apply_filter root t r)

  abbrev pub names_of : (ℕ → Connection) → List ℕ → List J
  names_of cons [] = []
  names_of cons (c ∷ cs) = text j (cons c).character_name ∷ names_of cons cs

  unfoldable pub search_reply : J → List J → Bytes
  search_reply kinksnode names =
      codes "FKS "
      ++ c_str (
          j.json_dumps (
            j.json_object
              ((codes "characters", j.json_array names) ∷ (codes "kinks", kinksnode) ∷ [])))

  -- The answers by the number of connections found.
  unfoldable pub answer_search : ℕ → J → Heap × List ℕ → Heap × ℤ
  unfolding search_reply
  answer_search k kinksnode (h, found) =
      if length found == 0
      then (h, ferr_no_search_results)
      else if ltb 350 (length found)
      then (h, ferr_too_many_search_results)
      else (
        with_connection k
            (λ con.
              (send (from_string (search_reply kinksnode (names_of h.connections found))) con).0)
            h,
        ferr_ok,
      )

  abbrev pub kinks_of : J → Option (J × List J)
  kinks_of root = do
    node ← j.json_object_get (codes "kinks") root
    nodes ← j.json_elements node
    some (node, nodes)

module _ {J : Type 0} (j : Jansson J) (atoi : Bytes → ℤ) where
  -- The numbers among the elements, as integers or as strings.
  unfoldable pub kink_items : List J → List ℤ
  unfolding to_int
  kink_items [] = []
  kink_items (n ∷ nodes) =
      let rest = kink_items nodes in
      elim (c_string_value j n) [
        | some s ↦ atoi s ∷ rest
        | none ↦ if j.json_is_integer n then to_int (j.json_integer_value n) ∷ rest else rest
      ]

  unfoldable pub run_filters : J → List J → Heap × List ℕ → Heap × List ℕ
  unfolding apply_filters filter_kinks kink_items
  run_filters root kinks r =
      let (h, cs) = apply_filters j root search_tags r in
      (h, if ltb 0 (length kinks) then filter_kinks (kink_items kinks) cs h else cs)

  -- Behind the parsing; `kinks` is the array with its elements.
  unfoldable pub search_terms : ℕ → J → Option (J × List J) → Heap × List ℕ → Heap × ℤ
  unfolding answer_search run_filters
  search_terms k root none (h, cs) = (h, ferr_bad_syntax)
  search_terms k root (some (kinksnode, kinks)) (h, cs) =
      if ltb 5 (length kinks)
      then (h, ferr_too_many_search_terms)
      else answer_search j k kinksnode (run_filters root kinks (h, cs))

  unfoldable pub search_payload : ℕ → Option J → Heap × List ℕ → Heap × ℤ
  unfolding search_terms
  search_payload k none (h, cs) = (h, ferr_bad_syntax)
  search_payload k (some root) (h, cs) = search_terms k root (kinks_of j root) (h, cs)

  unfoldable pub search_command : Ticks → ℕ → Bytes → Map Bytes ℕ → Heap → Heap × ℤ
  unfolding search_payload candidates
  search_command time k payload registered h =
      let last = last_search (h.connections k) in
      let h' = with_connection k (set_search time) h in
      if ltb_ℤ (time -ℤ search_timeout) last
      then (with_connection k (set_search last) h, ferr_throttle_search)
      else search_payload k (j.json_loads (c_str payload))
          (h', candidates k h'.connections registered)
