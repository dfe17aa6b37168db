-- ===== src/ServerState/Saved/Rooms/Reloaded.antt =====
-- The whole file of channels, saved and loaded.
use fserv.Prelude.{
  ℕ, ◌≡◌, ◌⊎◌, refl, ap, sym, ◌∙◌, Bool, true, false, ◌||◌, some, [], ◌∷◌, map, arith, Bool-cases,
  inl, inr,
}
use fserv.Prelude.Bytes.{Bytes, codes, eq_bytes, lowered, lowered_idem, c_str}
use fserv.Prelude.Int.{ℤ}
use fserv.Prelude.Maps.{Map, Distinct, bytes_eq, lookup, has}
use fserv.Json.{Jansson}
use fserv.Json.Laws.{IsJansson, array_at-object}
use fserv.Channel.{ChannelType, ct_public, ct_private, ct_pubprivate}
use fserv.Channel.Saved.{save_channel}
use fserv.Channel.Saved.Renewed.{IsRenewed, IsKeepable}
use fserv.Rooms.{Heap}
use fserv.ServerState.{ServerState}
use fserv.ServerState.Saved.{
  Files, Loading, joined_lines, load_each, is_ct_public, is_ct_pubprivate, saved_channels,
  channel_fields, saved_channel_root, save_channels, load_node, load_array, load_channel_root,
  load_channels,
}
use fserv.ServerState.Saved.Bans.{fload_file-fsave_file}
use fserv.ServerState.Saved.Rooms.{chosen, Each, IsNamed, IsHeld, IsLoaded, load_each-IsLoaded}
use fserv.ServerState.Saved.Rooms.Chosen.{
  chosen-texts, chosen-Each, chosen-absent, chosen-IsSimple, chosen-other, chosen-All, key_of,
}

module _ {J : Type 0} (j : Jansson J) (laws : IsJansson j) where
  saved_channels_lem :
      (of_type : ChannelType → Bool) (now : ℤ) (h : Heap) (m : Map Bytes ℕ)
      → saved_channels j of_type now h m ≡ map (save_channel j now) (chosen of_type h m)
  unfolding saved_channels chosen
  saved_channels_lem of_type now h [] = refl
  saved_channels_lem of_type now h ((name, c) ∷ m) =
      elim (Bool-cases (of_type (h.channels c).type)) [
        | inl e ↦
            rw e (ap (◌∷◌ (save_channel j now (h.channels c))) (saved_channels_lem of_type now h m))
        | inr e ↦ rw e (saved_channels_lem of_type now h m)
      ]

  -- The channels that are known after the loading, beside those that were saved and those before.
  pub record IsReloaded (now later : ℤ) (h : Heap) (s : ServerState) (l l' : Loading) : Type 0 where
    -- A channel that is saved is there under its key, renewed.
    pub saved :
        (k : Bytes) (c : ℕ)
        → lookup k s.channel_map ≡ some c
        → (is_ct_public (h.channels c).type || is_ct_pubprivate (h.channels c).type) ≡ true
        → (c' : ℕ) × (lookup k l'.2.channel_map ≡ some c')
          × IsRenewed now later (h.channels c) (l'.0.channels c')
    -- Under the key of any other channel, and under a key in lower case of none, there is what was
    -- there before.
    pub private_one :
        (k : Bytes) (c : ℕ)
        → lookup k s.channel_map ≡ some c
        → (is_ct_public (h.channels c).type || is_ct_pubprivate (h.channels c).type) ≡ false
        → lookup k l'.2.channel_map ≡ lookup k l.2.channel_map
    pub unknown :
        (k : Bytes)
        → lowered k ≡ k
        → has k s.channel_map ≡ false
        → lookup k l'.2.channel_map ≡ lookup k l.2.channel_map

  reloaded :
      (now later : ℤ) (h : Heap) (s : ServerState) (l l1 l2 : Loading)
      → IsNamed h s.channel_map
      → Distinct s.channel_map
      → IsLoaded now later (chosen is_ct_public h s.channel_map) l l1
      → IsLoaded now later (chosen is_ct_pubprivate h s.channel_map) l1 l2
      → IsReloaded now later h s l l2
  reloaded now later h s l l1 l2 n d one two = record {
    saved =
        λ k c found kept. by_type k c found (Bool-cases (is_ct_public (h.channels c).type)) kept;
    private_one = λ k c found out.
        let lower = key_lower k c found in
        two.others k lower
          (chosen-other is_ct_pubprivate h k c s.channel_map n d found (ground arith))
        ∙ one.others k lower
            (chosen-other is_ct_public h k c s.channel_map n d found (ground arith));
    unknown = λ k lower out.
        two.others k lower (chosen-absent is_ct_pubprivate h k s.channel_map n out)
        ∙ one.others k lower (chosen-absent is_ct_public h k s.channel_map n out);
  }
    where
      key_lower : (k : Bytes) (c : ℕ) → lookup k s.channel_map ≡ some c → lowered k ≡ k
      key_lower k c found =
          let e = key_of h k c s.channel_map n found in
          ap lowered (sym e) ∙ lowered_idem (h.channels c).name ∙ e

      not_both : (t : ChannelType) → is_ct_public t ≡ true → is_ct_pubprivate t ≡ false
      not_both ct_public e = refl
      not_both ct_private e = refl
      not_both ct_pubprivate e = cc

      by_type :
          (k : Bytes) (c : ℕ)
          → lookup k s.channel_map ≡ some c
          → (is_ct_public (h.channels c).type ≡ true) ⊎ (is_ct_public (h.channels c).type ≡ false)
          → (is_ct_public (h.channels c).type || is_ct_pubprivate (h.channels c).type) ≡ true
          → (c' : ℕ) × (lookup k l2.2.channel_map ≡ some c')
            × IsRenewed now later (h.channels c) (l2.0.channels c')
      by_type k c found (inl e) kept =
          let is_key = key_of h k c s.channel_map n found in
          let (c', known, above, below, restored) =
            chosen-All is_ct_public h (IsHeld now later l.1 l1) k c s.channel_map one.held found
              e in
          let out =
            chosen-other is_ct_pubprivate h k c s.channel_map n d found
              (not_both (h.channels c).type e) in
          (
            c',
            two.others k (key_lower k c found) out
                ∙ ap (λ x. lookup x l1.2.channel_map) (sym is_key)
                ∙ known,
            rw (two.keeps c' below) restored,
          )
      by_type k c found (inr e) kept =
          let is_key = key_of h k c s.channel_map n found in
          let second : is_ct_pubprivate (h.channels c).type ≡ true = ground (arith, kept, e) in
          let (c', known, above, below, restored) =
            chosen-All is_ct_pubprivate h (IsHeld now later l1.1 l2) k c s.channel_map two.held
              found second in
          (c', ap (λ x. lookup x l2.2.channel_map) (sym is_key) ∙ known, restored)

  load_channel_root-saved :
      (now later : ℤ) (h : Heap) (s : ServerState) (l : Loading)
      → IsNamed h s.channel_map
      → Each (IsKeepable j now) h s.channel_map
      → Distinct s.channel_map
      → (l' : Loading) × (load_channel_root j later (some (saved_channel_root j now h s)) l
          ≡ some l')
        × IsReloaded now later h s l l'
  unfolding load_channel_root load_array has eq_bytes lookup
  load_channel_root-saved now later h s l n kept d =
      let fs = channel_fields j now h s in
      let dist : Distinct fs = (refl, (refl, tt)) in
      let (l1, run1, one) =
        load_each-IsLoaded j laws now later ct_public (chosen is_ct_public h s.channel_map) l
          (chosen-texts is_ct_public h s.channel_map n)
          (chosen-Each is_ct_public h (IsKeepable j now) s.channel_map kept)
          (chosen-IsSimple is_ct_public h s.channel_map n d) in
      let (l2, run2, two) =
        load_each-IsLoaded j laws now later ct_pubprivate (chosen is_ct_pubprivate h s.channel_map)
          l1 (chosen-texts is_ct_pubprivate h s.channel_map n)
          (chosen-Each is_ct_pubprivate h (IsKeepable j now) s.channel_map kept)
          (chosen-IsSimple is_ct_pubprivate h s.channel_map n d) in
      let run1' =
        ap (λ ns. load_each (load_node j later ct_public) ns (some l))
          (saved_channels_lem is_ct_public now h s.channel_map)
        ∙ run1 in
      let run2' =
        ap (λ ns. load_each (load_node j later ct_pubprivate) ns (some l1))
          (saved_channels_lem is_ct_pubprivate now h s.channel_map)
        ∙ run2 in
      (
        l2,
        rw (array_at-object j laws fs (codes "public") _ dist refl)
            (rw (array_at-object j laws fs (codes "private") _ dist refl) (rw run1' run2')),
        reloaded now later h s l l1 l2 n d one two,
      )

  -- If the file can be opened, the text written parses, without its line ends, to the value it was
  -- written from, every channel stands once in the map, under its name in lower case, with no zero
  -- byte in the name, and its moderators and bans have one entry for each name and no zero byte,
  -- with banned names in lower case and at most 300 bans in force: then loading succeeds in any
  -- state. Every public and every open private channel is known under its key with its name, its
  -- description, owner and title up to a zero byte, its mode, type and record of users, its
  -- moderators and the bans that were in force, used last at the loading and with nobody in it; and
  -- every other key in lower case finds what it found before.
  pub load_channels-save_channels :
      (writable : Bytes → Bool) (now later : ℤ) (h : Heap) (s : ServerState) (files : Files)
      (l : Loading)
      → writable (codes "./channels.json") ≡ true
      → j.json_loads (c_str (joined_lines (j.json_dumps_indented (saved_channel_root j now h s))))
        ≡ some (saved_channel_root j now h s)
      → IsNamed h s.channel_map
      → Each (IsKeepable j now) h s.channel_map
      → Distinct s.channel_map
      → (l' : Loading) × (load_channels j later (save_channels j writable now h s files) l
          ≡ some l')
        × IsReloaded now later h s l l'
  unfolding load_channels save_channels
  load_channels-save_channels writable now later h s files l w parses n kept d =
      let read =
        fload_file-fsave_file writable (codes "./channels.json")
          (j.json_dumps_indented (saved_channel_root j now h s)) files w in
      let (l', run, known) = load_channel_root-saved now later h s l n kept d in
      (
        l',
        ap (λ c. load_channel_root j later (j.json_loads (c_str c)) l) read
            ∙ ap (λ o. load_channel_root j later o l) parses
            ∙ run,
        known,
      )
