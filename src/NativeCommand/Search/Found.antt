-- ===== src/NativeCommand/Search/Found.antt =====
-- What the search finds: its filters as one test of a connection, and the answer by their count.
use fserv.Prelude.{
  ℕ, ◌≡◌, ◌≢◌, ◌<◌, ◌≤◌, ◌⊎◌, ◌↔◌, refl, ap, sym, ◌∙◌, Bool, true, false, ◌&&◌, Bool-cases, inl,
  inr, Option, none, some, List, [], ◌∷◌, if◌then◌else◌, arith, ltb, ◌==◌, length,
}
use fserv.Prelude.Bytes.{Bytes, c_str}
use fserv.Prelude.Int.{ℤ, ltb_ℤ, ◌-ℤ◌}
use fserv.Prelude.Maps.{Map, bytes_eq, int_eq, nat_eq, member, IsSimple}
use fserv.Json.{Jansson, array_at}
use fserv.Connection.{Connection, Ticks, from_string, send}
use fserv.Rooms.{Heap, with_connection}
use fserv.Server.Errors.{ferr_ok, ferr_no_search_results, ferr_too_many_search_results}
use fserv.NativeCommand.Search.Candidates.{filter, filter-IsSimple, candidates-IsSimple}
use fserv.NativeCommand.Search.Wanted.{allows, has_tags, is_match, IsWanted, filter-IsWanted}
use fserv.NativeCommand.Search.{
  tag, touch, filter_tags, has_kinks, filter_kinks, is_searchable, candidates, search_timeout,
  search_tags, string_items, kink_items, apply_filter, apply_filters, names_of, search_reply,
  answer_search, run_filters, search_terms, kinks_of, search_payload, search_command, last_search,
  set_search,
}
use fserv.NativeCommand.Search.Alike.{
  IsLike, AllLike, touch-IsLike, with_connection-AllLike, send-IsLike, AllLike-trans, AllLike-refl,
  with_connection_like,
}

filter_cong {ℓ} :
    {A : Type ℓ} (p q : A → Bool) (xs : List A) → ((x : A) → p x ≡ q x) → filter p xs ≡ filter q xs
unfolding filter
filter_cong p q [] h = refl
filter_cong p q (x ∷ xs) h = rw (h x, filter_cong p q xs h) refl

filter_both {ℓ} :
    {A : Type ℓ} (p q : A → Bool) (xs : List A)
    → filter q (filter p xs) ≡ filter (λ x. p x && q x) xs
unfolding filter
filter_both p q [] = refl
filter_both p q (x ∷ xs) = elim (Bool-cases (p x)) [
  | inl e ↦ rw e (rw (filter_both p q xs) refl)
  | inr e ↦ rw e (filter_both p q xs)
]

filter_all {ℓ} : {A : Type ℓ} (xs : List A) → filter (λ x. true) xs ≡ xs
unfolding filter
filter_all [] = refl
filter_all (x ∷ xs) = ap (◌∷◌ x) (filter_all xs)

-- A heap and the connections that are left, beside the heap before and the test.
record IsFiltered (h : Heap) (p : Connection → Bool) (cs : List ℕ) (r : Heap × List ℕ)
    : Type 0 where
  like : AllLike r.0 h
  left : r.1 ≡ filter (λ c. p (h.connections c)) cs

filter_tags-IsFiltered :
    (item : Bytes) (items : List Bytes) (cs : List ℕ) (h : Heap)
    → IsFiltered h (λ con. member (tag item con) items) cs (filter_tags item items cs h)
unfolding filter_tags filter
filter_tags-IsFiltered item items [] h = record { like = AllLike-refl h; left = refl }
filter_tags-IsFiltered item items (c ∷ cs) h =
    let touched = with_connection-AllLike c (touch item) h (touch-IsLike item) in
    let rest = filter_tags-IsFiltered item items cs (with_connection c (touch item) h) in
    let same_test = filter_cong _ _ cs (λ x. ap (λ t. member t items) ((touched.1 x).tags item)) in
    record {
      like =
          AllLike-trans (filter_tags item items cs (with_connection c (touch item) h)).0
            (with_connection c (touch item) h) h rest.like touched;
      left =
          ap (λ l. if member (tag item (h.connections c)) items then c ∷ l else l)
            (rest.left ∙ same_test);
    }

has_kinks_like :
    (items : List ℤ) (c d : Connection) → IsLike c d → has_kinks items c ≡ has_kinks items d
has_kinks_like [] c d like = refl
has_kinks_like (n ∷ items) c d like =
    rw (has_kinks_like items c d like)
      (ap (λ con. member n con.kink_list && has_kinks items d) like.profiles)

filter_kinks_lem :
    (items : List ℤ) (cs : List ℕ) (h : Heap)
    → filter_kinks items cs h ≡ filter (λ c. has_kinks items (h.connections c)) cs
unfolding filter_kinks filter
filter_kinks_lem items [] h = refl
filter_kinks_lem items (c ∷ cs) h =
    ap (λ l. if has_kinks items (h.connections c) then c ∷ l else l) (filter_kinks_lem items cs h)

module _ {J : Type 0} (j : Jansson J) where
  has_tags_like :
      (root : J) (tags : List (Bytes × Bytes)) (c d : Connection)
      → IsLike c d
      → has_tags j root tags c ≡ has_tags j root tags d
  has_tags_like root [] c d like = refl
  has_tags_like root ((key, item) ∷ tags) c d like =
      rw (allowed (array_at j key root), has_tags_like root tags c d like) refl
    where
      allowed : (o : Option (List J)) → allows j o item c ≡ allows j o item d
      allowed none = refl
      allowed (some nodes) = ap (λ t. member t (string_items j nodes)) (like.tags item)

  apply_filter-IsFiltered :
      (root : J) (key item : Bytes) (h : Heap) (cs : List ℕ)
      → IsFiltered h
          (allows j (array_at j key root) item)
          cs
          (apply_filter j root (key, item) (h, cs))
  unfolding apply_filter
  apply_filter-IsFiltered root key item h cs = out (array_at j key root)
    where
      out :
          (o : Option (List J))
          → IsFiltered h (allows j o item) cs (elim o [
            | none ↦ (h, cs)
            | some nodes ↦ filter_tags item (string_items j nodes) cs h
          ])
      out none = record { like = AllLike-refl h; left = sym (filter_all cs) }
      out (some nodes) = filter_tags-IsFiltered item (string_items j nodes) cs h

  apply_filters-IsFiltered :
      (root : J) (tags : List (Bytes × Bytes)) (h : Heap) (cs : List ℕ)
      → IsFiltered h (has_tags j root tags) cs (apply_filters j root tags (h, cs))
  unfolding apply_filters
  apply_filters-IsFiltered root [] h cs = record {
    like = AllLike-refl h;
    left = sym (filter_all cs);
  }
  apply_filters-IsFiltered root ((key, item) ∷ tags) h cs =
      let r = apply_filter j root (key, item) (h, cs) in
      let one = apply_filter-IsFiltered root key item h cs in
      let rest = apply_filters-IsFiltered root tags r.0 r.1 in
      let first : ℕ → Bool = λ c. allows j (array_at j key root) item (h.connections c) in
      record {
        like = AllLike-trans (apply_filters j root tags r).0 r.0 h rest.like one.like;
        left =
            rest.left
            ∙ filter_cong _ _ r.1 (λ c. has_tags_like root tags _ _ (one.like.1 c))
            ∙ ap (filter (λ c. has_tags j root tags (h.connections c))) one.left
            ∙ filter_both first _ cs;
      }

module _ {J : Type 0} (j : Jansson J) (atoi : Bytes → ℤ) where
  run_filters-IsFiltered :
      (root : J) (kinks : List J) (h : Heap) (cs : List ℕ)
      → IsFiltered h (is_match j atoi root kinks) cs (run_filters j atoi root kinks (h, cs))
  unfolding run_filters
  run_filters-IsFiltered root kinks h cs =
      let r = apply_filters j root search_tags (h, cs) in
      let f = apply_filters-IsFiltered j root search_tags h cs in
      let tagged : ℕ → Bool = λ c. has_tags j root search_tags (h.connections c) in
      let has_all : ℕ → Bool = λ c. has_kinks (kink_items j atoi kinks) (h.connections c) in
      record {
        like = f.like;
        left =
            all kinks r.0 r.1 f.like ∙ ap (filter has_all) f.left ∙ filter_both tagged has_all cs;
      }
    where
      all :
          (kinks : List J) (g : Heap) (ds : List ℕ)
          → AllLike g h
          → (if ltb 0 (length kinks) then filter_kinks (kink_items j atoi kinks) ds g else ds)
            ≡ filter (λ c. has_kinks (kink_items j atoi kinks) (h.connections c)) ds
      all [] g ds like = unfold kink_items in sym (filter_all ds)
      all (n ∷ ns) g ds like =
          let some_kink : ltb 0 (length (n ∷ ns)) ≡ true = ground arith in
          rw some_kink (
            filter_kinks_lem (kink_items j atoi (n ∷ ns)) ds g
            ∙ filter_cong (λ c. has_kinks (kink_items j atoi (n ∷ ns)) (g.connections c))
                (λ c. has_kinks (kink_items j atoi (n ∷ ns)) (h.connections c)) ds
                (λ c. has_kinks_like (kink_items j atoi (n ∷ ns)) _ _ (like.1 c)))

  is_match_like :
      (root : J) (kinks : List J) (c d : Connection)
      → IsLike c d
      → is_match j atoi root kinks c ≡ is_match j atoi root kinks d
  is_match_like root kinks c d like = rw (has_tags_like j root search_tags c d like) (
      ap (◌&&◌ (has_tags j root search_tags d)) (has_kinks_like (kink_items j atoi kinks) c d like))

candidates_like :
    (k : ℕ) (g h : Heap) (m : Map Bytes ℕ)
    → AllLike g h
    → candidates k g.connections m ≡ candidates k h.connections m
unfolding candidates
candidates_like k g h [] like = refl
candidates_like k g h ((name, c) ∷ m) like =
    rw (ap is_searchable (like.1 c).profiles, candidates_like k g h m like) refl

module _ {J : Type 0} (j : Jansson J) where
  names_of_like :
      (g h : Heap) (cs : List ℕ)
      → AllLike g h
      → names_of j g.connections cs ≡ names_of j h.connections cs
  names_of_like g h [] like = refl
  names_of_like g h (c ∷ cs) like =
      rw (ap (λ con. con.character_name) (like.1 c).profiles, names_of_like g h cs like) refl

  -- The answer for what was found, beside the heap before.
  abbrev pub IsSearched : ℕ → J → List ℕ → Heap → Heap × ℤ → Type 0
  IsSearched k kinksnode found h r =
      (length found ≡ 0) × (r.1 ≡ ferr_no_search_results) × AllLike r.0 h
      ⊎ (350 < length found) × (r.1 ≡ ferr_too_many_search_results) × AllLike r.0 h
      ⊎ (length found ≢ 0)
        × (length found ≤ 350)
        × (r.1 ≡ ferr_ok)
        × AllLike r.0 (
            with_connection k
              (λ con.
                (send (from_string (search_reply j kinksnode (names_of j h.connections found)))
                  con).0)
              h)

  answer_search-IsSearched :
      (k : ℕ) (kinksnode : J) (g h : Heap) (found : List ℕ)
      → AllLike g h
      → IsSearched k kinksnode found h (answer_search j k kinksnode (g, found))
  unfolding answer_search
  answer_search-IsSearched k kinksnode g h found like = elim (Bool-cases (length found == 0)) [
    | inl none_found ↦ rw none_found (inl (ground arith, refl, like))
    | inr some_found ↦ elim (Bool-cases (ltb 350 (length found))) [
      | inl many ↦ rw some_found (rw many (inr (inl (ground arith, refl, like))))
      | inr few ↦ rw some_found (
          rw few (
            inr (
              inr (
                ground arith,
                ground arith,
                refl,
                rw (names_of_like g h found like)
                    (with_connection_like k _ g h (send-IsLike _) like),
              ))))
    ]
  ]

  -- A search that is not throttled, whose payload parses and names an array of at most five kinks:
  -- it finds exactly those who are registered, are not the asker, have kinks, have the status
  -- online or looking, have their infotag in each of the six lists that the payload names, and have
  -- every kink asked for, each once, all as they were before the search. The answer is by their
  -- number: an error for none and for more than 350, each with nothing sent, and otherwise the
  -- asker is sent their names. Nothing else changes, in channels or connections, but timers and
  -- empty infotags.
  pub search_command-IsSearched :
      (atoi : Bytes → ℤ) (time : Ticks) (k : ℕ) (payload : Bytes) (registered : Map Bytes ℕ)
      (h : Heap) (root kinksnode : J) (kinks : List J)
      → ltb_ℤ (time -ℤ search_timeout) (last_search (h.connections k)) ≡ false
      → j.json_loads (c_str payload) ≡ some root
      → kinks_of j root ≡ some (kinksnode, kinks)
      → ltb 5 (length kinks) ≡ false
      → (found : List ℕ) × ((c : ℕ)
          → (member c found ≡ true) ↔ IsWanted j atoi k root kinks registered h.connections c)
        × IsSimple found
        × IsSearched k kinksnode found h (search_command j atoi time k payload registered h)
  unfolding search_command search_payload search_terms
  search_command-IsSearched atoi time k payload registered h root kinksnode kinks late parsed array
        five =
      let h' = with_connection k (set_search time) h in
      let cs = candidates k h'.connections registered in
      let like : AllLike h' h =
        with_connection-AllLike k (set_search time) h
          (λ con. record { profiles = refl; tags = λ item. refl }) in
      let f = run_filters-IsFiltered j atoi root kinks h' cs in
      let left =
        f.left
        ∙ filter_cong _ (λ c. is_match j atoi root kinks (h.connections c)) cs
            (λ c. is_match_like j atoi root kinks _ _ (like.1 c))
        ∙ ap (filter _) (candidates_like k h' h registered like) in
      let people = candidates k h.connections registered in
      (
        filter (λ c. is_match j atoi root kinks (h.connections c)) people,
        filter-IsWanted j atoi k root kinks registered h.connections,
        filter-IsSimple _ people (candidates-IsSimple k h.connections registered),
        rw late (
            rw parsed (
              rw array (
                rw five (
                  rw left (
                    answer_search-IsSearched k kinksnode _ h _ (
                      AllLike-trans (run_filters j atoi root kinks (h', cs)).0 h' h f.like
                        like)))))),
      )
