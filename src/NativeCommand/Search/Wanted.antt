-- ===== src/NativeCommand/Search/Wanted.antt =====
-- Who a search wants, by the fields of a connection, and that the loops leave exactly those.
use fserv.Prelude.{
  ℕ, ◌≡◌, ◌≢◌, ◌⊎◌, ◌↔◌, refl, ap, sym, ◌∙◌, Bool, true, false, not, ◌&&◌, ◌||◌, Bool-cases, inl,
  inr, Option, none, some, List, [], ◌∷◌, All, arith, ◌==◌, is_empty,
}
use fserv.Prelude.Bytes.{Bytes, codes, eq_bytes, eq_bytes_iff}
use fserv.Prelude.Int.{ℤ}
use fserv.Prelude.Maps.{Map, bytes_eq, int_eq, nat_eq, member, same_iff}
use fserv.Json.{c_string_value, Jansson, array_at}
use fserv.Connection.{Connection}
use fserv.NativeCommand.Search.{
  tag, has_kinks, is_searchable, candidates, search_tags, string_items, kink_items, to_int,
}
use fserv.NativeCommand.Search.Candidates.{
  filter, member-filter, and_iff, entries, member-candidates,
}

is_searchable_lem :
    (con : Connection)
    → (is_searchable con ≡ true)
      ↔ (con.kink_list ≢ []) × ((con.status ≡ codes "online") ⊎ (con.status ≡ codes "looking"))
is_searchable_lem con = by_kinks con.kink_list
  where
    by_kinks :
        (kinks : List ℤ)
        → (not (is_empty kinks)
              && (eq_bytes con.status (codes "online") || eq_bytes con.status (codes "looking"))
            ≡ true)
          ↔ (kinks ≢ []) × ((con.status ≡ codes "online") ⊎ (con.status ≡ codes "looking"))
    by_kinks [] = ((λ e. cc), λ (some_kink, e). absurd (some_kink refl))
    by_kinks (n ∷ kinks) =
        ground (
          arith,
          eq_bytes_iff con.status (codes "online"),
          eq_bytes_iff con.status (codes "looking"),
        )

module _ {J : Type 0} (j : Jansson J) where
  -- The list, if the search names one, has the connection's infotag.
  abbrev pub allows : Option (List J) → Bytes → Connection → Bool
  allows none item con = true
  allows (some nodes) item con = member (tag item con) (string_items j nodes)

  -- Every list of the search has its infotag.
  abbrev pub has_tags : J → List (Bytes × Bytes) → Connection → Bool
  has_tags root [] con = true
  has_tags root ((key, item) ∷ tags) con =
      allows (array_at j key root) item con && has_tags root tags con

  -- One of the elements is the string.
  abbrev IsListed : Bytes → List J → Type 0
  IsListed t [] = ⊥
  IsListed t (n ∷ nodes) = (c_string_value j n ≡ some t) ⊎ IsListed t nodes

  string_items_lem :
      (t : Bytes) (nodes : List J) → (member t (string_items j nodes) ≡ true) ↔ IsListed t nodes
  unfolding string_items member
  string_items_lem t [] = ((λ e. cc), λ no. absurd no)
  string_items_lem t (n ∷ nodes) = by_value (string_items_lem t nodes) (c_string_value j n) refl
    where
      by_value :
          (member t (string_items j nodes) ≡ true) ↔ IsListed t nodes
          → (o : Option Bytes) → c_string_value j n ≡ o
          → (member t (string_items j (n ∷ nodes)) ≡ true) ↔ IsListed t (n ∷ nodes)
      by_value rest none e =
          rw (string_items, e)
            ((λ m. inr (rest.0 m)), λ l. elim l [ inl never ↦ cc | inr later ↦ rest.1 later ])
      by_value rest (some s) e = rw (string_items, e) (ground (arith, rest, same_iff s t))

  -- If the search has a list under the key, then the connection's infotag is a string of it.
  abbrev HasTag : J → Bytes → Bytes → Connection → Type 0
  HasTag root key item con =
      (nodes : List J) → array_at j key root ≡ some nodes → IsListed (tag item con) nodes

  abbrev HasTags : J → List (Bytes × Bytes) → Connection → Type 0
  HasTags root [] con = Unit {0}
  HasTags root ((key, item) ∷ tags) con = HasTag root key item con × HasTags root tags con

  allows_lem :
      (o : Option (List J)) (item : Bytes) (con : Connection)
      → (allows o item con ≡ true)
        ↔ ((nodes : List J) → o ≡ some nodes → IsListed (tag item con) nodes)
  allows_lem none item con = ((λ e nodes no. cc), λ e. refl)
  allows_lem (some ns) item con =
      let listed = string_items_lem (tag item con) ns in
      (
        (λ e nodes is. let same_list : ns ≡ nodes = cc in rw (sym same_list) (listed.0 e)),
        λ all. listed.1 (all ns refl),
      )

  has_tags_lem :
      (root : J) (tags : List (Bytes × Bytes)) (con : Connection)
      → (has_tags root tags con ≡ true) ↔ HasTags root tags con
  has_tags_lem root [] con = ((λ e. tt), λ e. refl)
  has_tags_lem root ((key, item) ∷ tags) con =
      let both = and_iff (allows (array_at j key root) item con) (has_tags root tags con) in
      let here = allows_lem (array_at j key root) item con in
      let rest = has_tags_lem root tags con in
      (
        (λ e. (here.0 (both.0 e).0, rest.0 (both.0 e).1)),
        λ (tagged, all). both.1 (here.1 tagged, rest.1 all),
      )

module _ {J : Type 0} (j : Jansson J) (atoi : Bytes → ℤ) where
  -- What a search for the tags and the kinks finds.
  abbrev pub is_match : J → List J → Connection → Bool
  is_match root kinks con =
      has_tags j root search_tags con && has_kinks (kink_items j atoi kinks) con

  -- The connection has the kink, written as a string or as an integer.
  abbrev HasKink : Connection → J → Type 0
  HasKink con n =
      ((s : Bytes) → c_string_value j n ≡ some s → member (atoi s) con.kink_list ≡ true)
      × (c_string_value j n ≡ none
          → j.json_is_integer n ≡ true
          → member (to_int (j.json_integer_value n)) con.kink_list ≡ true)

  kink_items_lem :
      (con : Connection) (nodes : List J)
      → (has_kinks (kink_items j atoi nodes) con ≡ true) ↔ All (HasKink con) nodes
  unfolding kink_items
  kink_items_lem con [] = ((λ e. tt), λ e. refl)
  kink_items_lem con (n ∷ nodes) =
      by_value (kink_items_lem con nodes) (c_string_value j n) refl
        (Bool-cases (j.json_is_integer n))
    where
      by_value :
          (has_kinks (kink_items j atoi nodes) con ≡ true) ↔ All (HasKink con) nodes
          → (o : Option Bytes) → c_string_value j n ≡ o
          → (j.json_is_integer n ≡ true) ⊎ (j.json_is_integer n ≡ false)
          → (has_kinks (kink_items j atoi (n ∷ nodes)) con ≡ true) ↔ All (HasKink con) (n ∷ nodes)
      by_value rest (some s) e i =
          let both =
            and_iff (member (atoi s) con.kink_list) (has_kinks (kink_items j atoi nodes) con) in
          rw (kink_items, e)
            (
              (λ all. (
                (
                  (λ s' is. let same_text : s ≡ s' = cc in rw (sym same_text) (both.0 all).0),
                  λ no. cc,
                ),
                rest.0 (both.0 all).1,
              )),
              λ (here, all). both.1 (here.0 s refl, rest.1 all),
            )
      by_value rest none e (inl i) =
          let both =
            and_iff (member (to_int (j.json_integer_value n)) con.kink_list)
              (has_kinks (kink_items j atoi nodes) con) in
          rw (kink_items, e, i)
            (
              (λ all. (((λ s is. cc), λ no i. (both.0 all).0), rest.0 (both.0 all).1)),
              λ (here, all). both.1 (here.1 refl refl, rest.1 all),
            )
      by_value rest none e (inr i) =
          rw (kink_items, e, i)
            ((λ all. (((λ s is. cc), λ no i. cc), rest.0 all)), λ (here, all). rest.1 all)

  -- The connection is wanted by a search of `k`.
  pub record IsWanted (k : ℕ) (root : J) (kinks : List J) (registered : Map Bytes ℕ)
      (cons : ℕ → Connection) (c : ℕ) : Type 0 where
    pub is_registered : member c (entries registered) ≡ true
    pub is_other : c ≢ k
    pub has_some : (cons c).kink_list ≢ []
    pub is_open : ((cons c).status ≡ codes "online") ⊎ ((cons c).status ≡ codes "looking")
    pub gender : HasTag j root (codes "genders") (codes "Gender") (cons c)
    pub orientation : HasTag j root (codes "orientations") (codes "Orientation") (cons c)
    pub language : HasTag j root (codes "languages") (codes "Language preference") (cons c)
    pub furry : HasTag j root (codes "furryprefs") (codes "Furry preference") (cons c)
    pub role : HasTag j root (codes "roles") (codes "Dom/Sub Role") (cons c)
    pub position : HasTag j root (codes "positions") (codes "Position") (cons c)
    pub every : All (HasKink (cons c)) kinks

  pub filter-IsWanted :
      (k : ℕ) (root : J) (kinks : List J) (registered : Map Bytes ℕ) (cons : ℕ → Connection) (c : ℕ)
      → (member c (filter (λ d. is_match root kinks (cons d)) (candidates k cons registered))
          ≡ true)
        ↔ IsWanted k root kinks registered cons c
  filter-IsWanted k root kinks registered cons c = (
    (λ found.
        let (known, ok) = (and_iff _ _).0 (sym left ∙ found) in
        let (here, may) = (and_iff _ _).0 known in
        let (other, searchable) = (and_iff _ _).0 may in
        let (some_kink, open_one) = (is_searchable_lem (cons c)).0 searchable in
        let (tagged, kinky) = (and_iff _ _).0 ok in
        let (t1, (t2, (t3, (t4, (t5, (t6, end)))))) =
          (has_tags_lem j root search_tags (cons c)).0 tagged in
        record {
          is_registered = here;
          is_other = λ e. ground (arith, other, e);
          has_some = some_kink;
          is_open = open_one;
          gender = t1;
          orientation = t2;
          language = t3;
          furry = t4;
          role = t5;
          position = t6;
          every = (kink_items_lem (cons c) kinks).0 kinky;
        }),
    λ w.
        let searchable = (is_searchable_lem (cons c)).1 (w.has_some, w.is_open) in
        let apart : not (c == k) ≡ true = ground (arith, w.is_other) in
        let tagged =
          (has_tags_lem j root search_tags (cons c)).1
            (w.gender, (w.orientation, (w.language, (w.furry, (w.role, (w.position, tt)))))) in
        let kinky = (kink_items_lem (cons c) kinks).1 w.every in
        left
        ∙ (and_iff _ _).1 (
          (and_iff _ _).1 (w.is_registered, (and_iff _ _).1 (apart, searchable)),
          (and_iff _ _).1 (tagged, kinky),
        ),
  )
    where
      left :
          member c (filter (λ d. is_match root kinks (cons d)) (candidates k cons registered)) ≡ (
            (member c (entries registered) && (not (c == k) && is_searchable (cons c)))
            && is_match root kinks (cons c))
      left =
          member-filter (λ d. is_match root kinks (cons d)) c (candidates k cons registered)
          ∙ ap (λ b. b && is_match root kinks (cons c)) (member-candidates k cons c registered)
