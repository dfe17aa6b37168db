-- ===== src/ServerState/Saved/Rooms.antt =====
-- Channels: what a server that loads them again knows.
pub mod Chosen
pub mod Reloaded
use fserv.Prelude.{
  ℕ, suc, ◌≤◌, ◌<◌, ◌≡◌, refl, ap, sym, ◌∙◌, Bool, true, false, ◌||◌, Option, none, some, List, [],
  ◌∷◌, ◌>>=◌, map, All, arith, if◌then◌else◌, Bool-cases, inl, inr, ◌==◌, ==_iff,
}
use fserv.Prelude.Bytes.{Bytes, IsText, codes, eq_bytes, eq_bytes_iff, lowered, lowered_idem, c_str}
use fserv.Prelude.Int.{ℤ}
use fserv.Prelude.Maps.{
  Map, Distinct, IsSimple, bytes_eq, same, same_iff, lookup, has, insert, erase, lookup-insert,
  lookup-erase, lookup_absent, member,
}
use fserv.Json.{Jansson, string_at}
use fserv.Json.Laws.{IsJansson, array_at-object}
use fserv.Channel.{Channel, ChannelType, ct_public, ct_private, ct_pubprivate, new_channel}
use fserv.Channel.Saved.{save_channel, load_channel}
use fserv.Channel.Saved.Restored.{saved_string}
use fserv.Channel.Saved.Renewed.{IsRenewed, IsKeepable, load_channel-IsRenewed}
use fserv.Rooms.{Heap, with_channel}
use fserv.ServerState.{ServerState, add_channel, remove_channel}
use fserv.ServerState.Saved.{
  Files, Loading, joined_lines, load_each, is_ct_public, is_ct_pubprivate, saved_channels,
  channel_fields, saved_channel_root, save_channels, load_node, load_array, load_channel_root,
  load_channels,
}
use fserv.ServerState.Saved.Bans.{fload_file-fsave_file}

abbrev pub key : Channel → Bytes
key ch = lowered ch.name

abbrev pub keys : List Channel → List Bytes
keys = map key

-- The channels that are saved.
unfoldable pub chosen : (ChannelType → Bool) → Heap → Map Bytes ℕ → List Channel
chosen of_type h [] = []
chosen of_type h ((name, c) ∷ m) =
    let rest = chosen of_type h m in
    if of_type (h.channels c).type then h.channels c ∷ rest else rest

-- Every channel stands under its name in lower case, and no name holds a zero byte.
abbrev pub IsNamed : Heap → Map Bytes ℕ → Type 0
IsNamed h [] = Unit {0}
IsNamed h ((name, c) ∷ m) =
    (name ≡ lowered (h.channels c).name) × IsText (h.channels c).name × IsNamed h m

-- Every channel of the map has the property.
abbrev pub Each : (Channel → Type 0) → Heap → Map Bytes ℕ → Type 0
Each P h [] = Unit {0}
Each P h ((name, c) ∷ m) = P (h.channels c) × Each P h m

module _ (now later : ℤ) where
  -- The channel stands under its key, renewed, under a number of at least `low`.
  abbrev pub IsHeld : ℕ → Loading → Channel → Type 0
  IsHeld low (h, next, s) ch =
      (c : ℕ) × (lookup (key ch) s.channel_map ≡ some c)
      × (low ≤ c)
      × (c < next)
      × IsRenewed now later ch (h.channels c)

  -- What loading some channels does to what was there.
  pub record IsLoaded (chs : List Channel) (l l' : Loading) : Type 0 where
    pub keeps : (c : ℕ) → c < l.1 → l'.0.channels c ≡ l.0.channels c
    pub grows : l.1 ≤ l'.1
    pub held : All (IsHeld l.1 l') chs
    pub others :
        (k : Bytes)
        → lowered k ≡ k
        → member k (keys chs) ≡ false
        → lookup k l'.2.channel_map ≡ lookup k l.2.channel_map

  IsHeld-weaken :
      (low : ℕ) (l : Loading) (chs : List Channel)
      → All (IsHeld (suc low) l) chs
      → All (IsHeld low l) chs
  IsHeld-weaken low l [] h = tt
  IsHeld-weaken low l (ch ∷ chs) ((c, known, above, below, renewed), hs) =
      ((c, known, omega (arith, above), below, renewed), IsHeld-weaken low l chs hs)

lookup-remove_channel :
    (name k : Bytes) (s : ServerState)
    → lookup k (remove_channel name s).channel_map
      ≡ (if same name k then none else lookup k s.channel_map)
unfolding remove_channel
lookup-remove_channel name k s = elim (Bool-cases (has name s.channel_map)) [
  | inl h ↦ rw h (lookup-erase name k s.channel_map)
  | inr h ↦ rw h (elim (Bool-cases (same name k)) [
    | inl e ↦ rw e (
        ap (λ x. lookup x s.channel_map) (sym ((same_iff name k).0 e))
        ∙ lookup_absent name s.channel_map h)
    | inr e ↦ rw e refl
  ])
]

-- A key in lower case is not touched by a channel of another key.
lookup-renewed :
    (name k : Bytes) (c : ℕ) (s : ServerState)
    → lowered k ≡ k
    → same (lowered name) k ≡ false
    → lookup k (add_channel name c (remove_channel name s)).channel_map ≡ lookup k s.channel_map
unfolding add_channel
lookup-renewed name k c s low other =
    rw (lookup-insert (lowered name) k c (remove_channel name s).channel_map) (
      rw other (
        rw (lookup-remove_channel name k s) (elim (Bool-cases (same name k)) [
          | inl e ↦
              let here = (same_iff (lowered name) k).1 (ap lowered ((same_iff name k).0 e) ∙ low) in
              let no : false ≡ true = sym other ∙ here in cc
          | inr e ↦ rw e refl
        ])))

lookup-new :
    (name : Bytes) (c : ℕ) (s : ServerState)
    → lookup (lowered name) (add_channel name c (remove_channel name s)).channel_map ≡ some c
unfolding add_channel
lookup-new name c s =
    rw (lookup-insert (lowered name) (lowered name) c (remove_channel name s).channel_map)
      (rw ((same_iff (lowered name) (lowered name)).1 refl) refl)

member_split :
    (k x : Bytes) (xs : List Bytes)
    → member k (x ∷ xs) ≡ false
    → (same x k ≡ false) × (member k xs ≡ false)
unfolding member
member_split k x xs h = ground arith

module _ {J : Type 0} (j : Jansson J) (laws : IsJansson j) (now later : ℤ) where
  -- One channel, saved and loaded under the next number.
  abbrev loaded_one : ChannelType → Channel → Loading → Loading
  loaded_one type ch (h, next, s) = (
    with_channel next (λ _. load_channel j later (save_channel j now ch) (new_channel ch.name type))
        h,
    suc next,
    add_channel ch.name next (remove_channel ch.name s),
  )

  load_node-save_channel :
      (type : ChannelType) (ch : Channel) (l : Loading)
      → IsText ch.name
      → load_node j later type (save_channel j now ch) (some l) ≡ some (loaded_one type ch l)
  unfolding load_node lookup eq_bytes
  load_node-save_channel type ch (h, next, s) t =
      rw (saved_string j laws now ch (codes "name") ch.name refl) (rw t refl)

  IsLoaded-first :
      (type : ChannelType) (ch : Channel) (chs : List Channel) (l l' : Loading)
      → member (key ch) (keys chs) ≡ false
      → IsKeepable j now ch
      → IsLoaded now later chs (loaded_one type ch l) l'
      → IsLoaded now later (ch ∷ chs) l l'
  IsLoaded-first type ch chs (h, next, s) l' out kept rest =
      let one = loaded_one type ch (h, next, s) in
      let here : (next == next) ≡ true = ground arith in
      let renewed = load_channel-IsRenewed j laws now later ch type kept in
      let at_next : l'.0.channels next
          ≡ load_channel j later (save_channel j now ch) (new_channel ch.name type) =
        rest.keeps next (omega arith) ∙ rw here refl in
      record {
        keeps = λ c lt.
            let apart : (next == c) ≡ false = ground (arith, lt) in
            rest.keeps c (omega (arith, lt)) ∙ rw apart refl;
        grows = omega (arith, rest.grows);
        held = (
          (
            next,
            rest.others (key ch) (lowered_idem ch.name) out ∙ lookup-new ch.name next s,
            omega arith,
            rest.grows,
            rw at_next renewed,
          ),
          IsHeld-weaken now later next l' chs rest.held,
        );
        others = λ k low absent.
            let parts = member_split k (key ch) (keys chs) absent in
            rest.others k low parts.1 ∙ lookup-renewed ch.name k next s low parts.0;
      }

  pub load_each-IsLoaded :
      (type : ChannelType) (chs : List Channel) (l : Loading)
      → All (λ ch. IsText ch.name) chs
      → All (IsKeepable j now) chs
      → IsSimple (keys chs)
      → (l' : Loading) × (load_each (load_node j later type) (map (save_channel j now) chs) (some l)
          ≡ some l')
        × IsLoaded now later chs l l'
  unfolding load_each
  load_each-IsLoaded type [] l t kept d = (
    l,
    refl,
    record { keeps = λ c h. refl; grows = omega arith; held = tt; others = λ k low out. refl },
  )
  load_each-IsLoaded type (ch ∷ chs) (h, next, s) t kept d =
      let one = loaded_one type ch (h, next, s) in
      let (l', run, rest) = load_each-IsLoaded type chs one t.1 kept.1 d.1 in
      (
        l',
        ap (load_each (load_node j later type) (map (save_channel j now) chs))
              (load_node-save_channel type ch (h, next, s) t.0)
            ∙ run,
        IsLoaded-first type ch chs (h, next, s) l' d.0 kept.0 rest,
      )
