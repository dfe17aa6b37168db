-- ===== src/Channel/Saved/Renewed.antt =====
-- The moderators of a channel that was saved and loaded again, and the whole channel.
use fserv.Prelude.{
  ◌≤◌, ◌≡◌, refl, ap, sym, ◌∙◌, false, Bool-cases, inl, inr, Option, none, some, List, [], ◌∷◌,
  ◌>>=◌, length,
}
use fserv.Prelude.Bytes.{Bytes, IsText, codes, eq_bytes}
use fserv.Prelude.Int.{ℤ}
use fserv.Prelude.Maps.{
  Map, bytes_eq, lookup, insert, has, Distinct, lookup-insert, lookup_absent, same, same_iff,
}
use fserv.Channel.{Channel, ChannelType, ModRecord, new_channel}
use fserv.Channel.Bans.{in_force}
use fserv.Json.{Jansson, given, text, elements_at}
use fserv.Json.Laws.{IsJansson, string_at-object, integer_at-object}
use fserv.Channel.Saved.{
  saved_bans, saved_mods, saved_fields, save_channel, load_mod, load_mods, load_channel,
  max_loaded_bans,
}
use fserv.Channel.Saved.Restored.{IsRestored, saved_fields-Distinct, load_channel-save_channel}
use fserv.Channel.Saved.Banned.{IsClean, overlaid, load_channel-save_channel_bans}

-- Neither the names nor those who appointed them hold a zero byte.
abbrev pub IsPlain : Map Bytes ModRecord → Type 0
IsPlain [] = Unit {0}
IsPlain ((name, mr) ∷ m) = IsText name × IsText mr.modder × IsPlain m

-- The channel as it was saved at `now` and loaded at `later` into a new one.
pub record IsRenewed (now later : ℤ) (ch ch' : Channel) : Type 0 where
  pub restored : IsRestored ch ch'
  pub name_is : ch'.name ≡ ch.name
  pub active_at : ch'.last_activity ≡ later
  pub nobody_in : ch'.participants ≡ []
  pub mods_are : (k : Bytes) → lookup k ch'.moderators ≡ lookup k ch.moderators
  pub bans_are : (k : Bytes) → lookup k ch'.bans ≡ in_force now (lookup k ch.bans)

overlaid-none {ℓ} : {A : Type ℓ} (o : Option A) → overlaid o none ≡ o
overlaid-none none = refl
overlaid-none (some x) = refl

module _ {J : Type 0} (j : Jansson J) where
  -- Moderators and bans have one entry for each name and no zero byte, the banned names are in
  -- lower case, and at most 300 of the bans are in force.
  pub record IsKeepable (now : ℤ) (ch : Channel) : Type 0 where
    pub mods_once : Distinct ch.moderators
    pub mods_plain : IsPlain ch.moderators
    pub bans_once : Distinct ch.bans
    pub bans_clean : IsClean ch.bans
    pub bans_few : length (saved_bans j now ch.bans) ≤ max_loaded_bans

module _ {J : Type 0} (j : Jansson J) (laws : IsJansson j) where
  load_mod-saved :
      (name : Bytes) (mr : ModRecord) (mods : Map Bytes ModRecord)
      → IsText name
      → IsText mr.modder
      → load_mod j
          (j.json_object (
            (codes "name", text j name)
            ∷ (codes "modder", text j mr.modder)
            ∷ (codes "time", j.json_integer mr.time)
            ∷ []))
          mods
        ≡ insert name mr mods
  unfolding load_mod lookup has eq_bytes
  load_mod-saved name mr mods n b =
      let fields : List (Bytes × J) =
        (codes "name", text j name)
        ∷ (codes "modder", text j mr.modder)
        ∷ (codes "time", j.json_integer mr.time)
        ∷ [] in
      let d : Distinct fields = (refl, (refl, (refl, tt))) in
      let modder = laws.get-object (codes "modder") fields d in
      let modder_text = string_at-object j laws fields (codes "modder") mr.modder d refl in
      let time = integer_at-object j laws fields (codes "time") mr.time d refl in
      let name_text = string_at-object j laws fields (codes "name") name d refl in
      rw (modder_text, time, name_text) (rw modder (rw (n, b) refl))

  first_over :
      (name k : Bytes) (mr : ModRecord) (m mods : Map Bytes ModRecord)
      → has name m ≡ false
      → overlaid (lookup k m) (lookup k (insert name mr mods))
        ≡ overlaid (lookup k ((name, mr) ∷ m)) (lookup k mods)
  unfolding lookup
  first_over name k mr m mods out = elim (Bool-cases (same name k)) [
    | inl e ↦
        let absent = lookup_absent k m (ap (λ n. has n m) (sym ((same_iff name k).0 e)) ∙ out) in
        rw (absent, lookup-insert name k mr mods) (rw e refl)
    | inr e ↦ rw (lookup-insert name k mr mods) (rw e refl)
  ]

  load_mods-saved_mods :
      (m mods : Map Bytes ModRecord) (k : Bytes)
      → Distinct m
      → IsPlain m
      → lookup k (load_mods j (saved_mods j m) mods) ≡ overlaid (lookup k m) (lookup k mods)
  unfolding load_mods saved_mods
  load_mods-saved_mods [] mods k d p = unfold lookup in refl
  load_mods-saved_mods ((name, mr) ∷ m) mods k d p =
      ap (λ b. lookup k (load_mods j (saved_mods j m) b)) (load_mod-saved name mr mods p.0 p.1)
      ∙ load_mods-saved_mods m (insert name mr mods) k d.1 p.2
      ∙ first_over name k mr m mods d.0

  modlist :
      (now : ℤ) (ch : Channel)
      → lookup (codes "modlist") (saved_fields j now ch)
        ≡ some (j.json_array (saved_mods j ch.moderators))
  unfolding lookup eq_bytes
  modlist now ch = refl

  load_channel-save_channel_mods :
      (now later : ℤ) (ch ch0 : Channel) (k : Bytes)
      → Distinct ch.moderators
      → IsPlain ch.moderators
      → lookup k (load_channel j later (save_channel j now ch) ch0).moderators
        ≡ overlaid (lookup k ch.moderators) (lookup k ch0.moderators)
  unfolding load_channel save_channel elements_at
  load_channel-save_channel_mods now later ch ch0 k d p =
      let fields = saved_fields j now ch in
      let at =
        laws.get-object (codes "modlist") fields (saved_fields-Distinct j laws now ch)
        ∙ modlist now ch in
      let list : elements_at j (codes "modlist") (j.json_object fields)
          ≡ saved_mods j ch.moderators =
        ap (λ o. given [] (o >>= λ value. j.json_elements value)) at
        ∙ ap (given []) (laws.elements-array (saved_mods j ch.moderators)) in
      ap (λ ns. lookup k (load_mods j ns ch0.moderators)) list
      ∙ load_mods-saved_mods ch.moderators ch0.moderators k d p

  pub load_channel-IsRenewed :
      (now later : ℤ) (ch : Channel) (type : ChannelType)
      → IsKeepable j now ch
      → IsRenewed now later ch
          (load_channel j later (save_channel j now ch) (new_channel ch.name type))
  unfolding new_channel
  load_channel-IsRenewed now later ch type kept =
      let new = new_channel ch.name type in
      record {
        restored = load_channel-save_channel j laws now ch later new;
        name_is = unfold load_channel in refl;
        active_at = unfold load_channel in refl;
        nobody_in = unfold load_channel in refl;
        mods_are = λ k.
            load_channel-save_channel_mods now later ch new k kept.mods_once kept.mods_plain
            ∙ unfold lookup in overlaid-none (lookup k ch.moderators);
        bans_are = λ k.
            load_channel-save_channel_bans j laws now later ch new k kept.bans_once kept.bans_clean
              kept.bans_few
            ∙ unfold lookup in overlaid-none (in_force now (lookup k ch.bans));
      }
