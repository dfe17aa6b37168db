-- ===== src/ServerState/Saved/Bans.antt =====
-- Bans and timeouts: what a server that loads them again knows.
use fserv.Prelude.{
  ◌≡◌, refl, ap, sym, ◌∙◌, Bool, true, false, none, some, [], ◌∷◌, ◌>>=◌, map, arith, Bool-cases,
  inl, inr,
}
use mathlib.Core.Option.{or_else}
use fserv.Prelude.Bytes.{Bytes, codes, eq_bytes, c_str}
use fserv.Prelude.Int.{ℤ, ltb_ℤ}
use fserv.Prelude.Maps.{
  Eq, Map, Distinct, bytes_eq, int_eq, same, same_iff, same_refl, lookup, has, insert,
  lookup-insert, lookup_absent,
}
use fserv.Json.{Jansson}
use fserv.Json.Laws.{IsJansson, string_at-object, checked_integer_at-object, array_at-object}
use fserv.ServerState.{ServerState, TimeoutRecord}
use fserv.ServerState.Lists.{drop_timeouts}
use fserv.ServerState.Moderation.{lives, lookup-drop_timeouts}
use fserv.ServerState.Saved.{
  Files, fsave_file, fload_file, joined_lines, ban_fields, saved_ban, timeout_fields, saved_timeout,
  root_fields, saved_root, save_bans, load_ban, load_timeout, load_each, load_timeouts, load_both,
  load_ban_root, load_bans,
}

module _ {ℓ} {K : Type 0} {V W : Type 0} {J : Type ℓ} ⦃e : Eq K⦄ where
  -- Loading what was saved of a map inserts every entry.
  pub load_each-lookup :
      (saved : K × V → J) (load : J → Map K W → Map K W) (f : V → W)
      → ((k : K) (v : V) (m : Map K W) → load (saved (k, v)) m ≡ insert k (f v) m)
      → (m : Map K V) (m' : Map K W) (k : K) → Distinct m
      → lookup k (load_each load (map saved m) m')
        ≡ or_else (lookup k m >>= λ v. some (f v)) (lookup k m')
  unfolding load_each lookup or_else
  load_each-lookup saved load f step [] m' k d = refl
  load_each-lookup saved load f step ((i, v) ∷ m) m' k d =
      ap (λ x. lookup k (load_each load (map saved m) x)) (step i v m')
      ∙ (load_each-lookup saved load f step m (insert i (f v) m') k d.1
          ∙ rw (lookup-insert i k (f v) m') (elim (Bool-cases (same i k)) [
            | inl h ↦
                let e : i ≡ k = (same_iff i k).0 h in
                let gone : lookup k m ≡ none =
                  ap (λ x. lookup x m) (sym e) ∙ lookup_absent i m d.0 in
                rw h (rw gone refl)
            | inr h ↦ rw h refl
          ]))

-- What was written to a file that could be opened is what is read.
pub fload_file-fsave_file :
    (writable : Bytes → Bool) (name contents : Bytes) (files : Files)
    → writable name ≡ true
    → fload_file name (fsave_file writable name contents files).0 ≡ joined_lines contents
unfolding fload_file fsave_file
fload_file-fsave_file writable name contents files w =
    rw w (rw (lookup-insert name name contents files) (rw (same_refl name) refl))

drop_timeouts-Distinct :
    (now : ℤ) (m : Map ℤ TimeoutRecord) → Distinct m → Distinct (drop_timeouts now m)
unfolding drop_timeouts has
drop_timeouts-Distinct now [] d = tt
drop_timeouts-Distinct now ((id, t) ∷ m) d = elim (Bool-cases (ltb_ℤ t.end now)) [
  | inl h ↦ rw h (drop_timeouts-Distinct now m d.1)
  | inr h ↦ rw h (still id m d.0, drop_timeouts-Distinct now m d.1)
]
  where
    still :
        (k : ℤ) (m : Map ℤ TimeoutRecord) → has k m ≡ false → has k (drop_timeouts now m) ≡ false
    still k [] h = refl
    still k ((j, t) ∷ m) h = ground (arith, still k m)

-- A timeout as it is read back.
abbrev pub cut_timeout : TimeoutRecord → TimeoutRecord
cut_timeout t = record t { character = c_str t.character }

module _ {J : Type 0} (j : Jansson J) (laws : IsJansson j) where
  load_ban-saved_ban :
      (id : ℤ) (character : Bytes) (m : Map ℤ Bytes)
      → load_ban j (saved_ban j (id, character)) m ≡ insert id (c_str character) m
  unfolding load_ban lookup has eq_bytes
  load_ban-saved_ban id character m =
      let fs = ban_fields j id character in
      let d : Distinct fs = (refl, (refl, tt)) in
      rw (laws.is_object-object fs) (
        rw (checked_integer_at-object j laws fs (codes "id") id d refl)
          (rw (string_at-object j laws fs (codes "character") character d refl) refl))

  load_timeout-saved_timeout :
      (id : ℤ) (t : TimeoutRecord) (m : Map ℤ TimeoutRecord)
      → load_timeout j (saved_timeout j (id, t)) m ≡ insert id (cut_timeout t) m
  unfolding load_timeout lookup has eq_bytes
  load_timeout-saved_timeout id t m =
      let fs = timeout_fields j id t in
      let d : Distinct fs = (refl, (refl, (refl, tt))) in
      rw (laws.is_object-object fs) (
        rw (checked_integer_at-object j laws fs (codes "id") id d refl) (
          rw (checked_integer_at-object j laws fs (codes "end") t.end d refl)
            (rw (string_at-object j laws fs (codes "character") t.character d refl) refl)))

  -- The state after the loading of a root, by entry.
  load_ban_root-saved_root :
      (s s' : ServerState)
      → load_ban_root j (some (saved_root j s)) s' ≡ record s' {
        ban_list = load_each (load_ban j) (map (saved_ban j) s.ban_list) s'.ban_list;
        timeout_list =
            load_each (load_timeout j) (map (saved_timeout j) s.timeout_list) s'.timeout_list;
      }
  unfolding load_ban_root load_both load_timeouts lookup has eq_bytes
  load_ban_root-saved_root s s' =
      let fs = root_fields j s in
      let d : Distinct fs = (refl, (refl, tt)) in
      rw (laws.is_object-object fs) (
        rw (array_at-object j laws fs (codes "bans") _ d refl)
          (rw (array_at-object j laws fs (codes "timeouts") _ d refl) refl))

  -- The bans and timeouts that a state has after loading, beside the saved one and the one before.
  pub record IsReloaded (now : ℤ) (s before after : ServerState) : Type 0 where
    pub bans :
        (id : ℤ)
        → lookup id after.ban_list
          ≡ or_else (lookup id s.ban_list >>= λ name. some (c_str name)) (lookup id before.ban_list)
    pub timeouts :
        (id : ℤ)
        → lookup id after.timeout_list
          ≡ or_else
              (lives now (lookup id s.timeout_list) >>= λ t. some (cut_timeout t))
              (lookup id before.timeout_list)

  -- If the file can be opened, the text written parses, without its line ends, to the value it was
  -- written from, and every account stands once in both lists: then, after saving and loading, each
  -- account has the ban, and the timeout whose end was not past, that it had when they were saved,
  -- with the name up to its first zero byte, or else what it had in the state before the loading.
  pub load_bans-save_bans :
      (writable : Bytes → Bool) (now : ℤ) (s before : ServerState) (files : Files)
      → writable (codes "./bans.json") ≡ true
      → j.json_loads (
          c_str (
            joined_lines
              (j.json_dumps_indented (saved_root j (save_bans j writable now s files).0))))
        ≡ some (saved_root j (save_bans j writable now s files).0)
      → Distinct s.ban_list
      → Distinct s.timeout_list
      → IsReloaded now s before (load_bans j (save_bans j writable now s files).1 before)
  unfolding load_bans save_bans
  load_bans-save_bans writable now s before files w parses d e =
      let kept = drop_timeouts-Distinct now s.timeout_list e in
      let s' : ServerState = record s { timeout_list = drop_timeouts now s.timeout_list } in
      let loaded = load_ban_root-saved_root s' before in
      let read =
        fload_file-fsave_file writable (codes "./bans.json")
          (j.json_dumps_indented (saved_root j s')) files w in
      let after =
        ap (λ c. load_ban_root j (j.json_loads (c_str c)) before) read
        ∙ ap (λ o. load_ban_root j o before) parses
        ∙ load_ban_root-saved_root s' before in
      record {
        bans = λ id.
            ap (λ t. lookup id t.ban_list) after
            ∙ load_each-lookup (saved_ban j) (load_ban j) c_str load_ban-saved_ban s.ban_list
                before.ban_list id d;
        timeouts = λ id.
            ap (λ t. lookup id t.timeout_list) after
            ∙ load_each-lookup (saved_timeout j) (load_timeout j) cut_timeout
                load_timeout-saved_timeout s'.timeout_list before.timeout_list id kept
            ∙ ap (λ o. or_else (o >>= λ t. some (cut_timeout t)) (lookup id before.timeout_list))
                (lookup-drop_timeouts now id s.timeout_list e);
      }
