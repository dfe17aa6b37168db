-- ===== src/Channel/Saved/Banned.antt =====
-- Which bans a channel that was saved and loaded again has.
use fserv.Prelude.{
  ℕ, zero, suc, ◌≤◌, ◌≡◌, refl, ap, sym, ◌∙◌, true, false, Bool-cases, inl, inr, Option, none, some,
  List, [], ◌∷◌, ◌>>=◌, length, take, arith,
}
use fserv.Prelude.Bytes.{Bytes, codes, eq_bytes, c_str, lowered}
use fserv.Prelude.Int.{ℤ}
use fserv.Prelude.Maps.{
  Map, bytes_eq, lookup, insert, has, Distinct, lookup-insert, lookup_absent, same, same_iff,
}
use fserv.Channel.{Channel, BanRecord, ran_out, holds}
use fserv.Channel.Bans.{in_force}
use fserv.Json.{Jansson, given, text, elements_at}
use fserv.Json.Laws.{IsJansson, string_at-object, integer_at-object}
use fserv.Channel.Saved.{
  saved_ban, saved_bans, saved_fields, save_channel, load_ban, load_bans, load_channel,
  max_loaded_bans,
}
use fserv.Channel.Saved.Restored.{saved_fields-Distinct}

-- The names are in lower case, and neither they nor the banners hold a zero byte.
abbrev pub IsClean : Map Bytes BanRecord → Type 0
IsClean [] = Unit {0}
IsClean ((name, br) ∷ m) = (lowered (c_str name) ≡ name) × (c_str br.banner ≡ br.banner) × IsClean m

-- What was loaded, over what was there before.
abbrev pub overlaid {ℓ} : {A : Type ℓ} → Option A → Option A → Option A
overlaid none before = before
overlaid (some x) before = some x

module _ {J : Type 0} (j : Jansson J) (laws : IsJansson j) where
  load_ban-saved_ban :
      (name : Bytes) (br : BanRecord) (bans : Map Bytes BanRecord)
      → lowered (c_str name) ≡ name
      → c_str br.banner ≡ br.banner
      → load_ban j (saved_ban j name br) bans ≡ insert name br bans
  unfolding load_ban lookup has eq_bytes
  load_ban-saved_ban name br bans n b =
      let fields : List (Bytes × J) =
        (codes "name", text j name)
        ∷ (codes "banner", text j br.banner)
        ∷ (codes "timeout", j.json_integer br.timeout)
        ∷ (codes "time", j.json_integer br.time)
        ∷ [] in
      let d : Distinct fields = (refl, (refl, (refl, (refl, tt)))) in
      let banner = laws.get-object (codes "banner") fields d in
      let banner_text = string_at-object j laws fields (codes "banner") br.banner d refl in
      let time = integer_at-object j laws fields (codes "time") br.time d refl in
      let timeout = integer_at-object j laws fields (codes "timeout") br.timeout d refl in
      let name_text = string_at-object j laws fields (codes "name") name d refl in
      rw (banner_text, time, timeout, name_text) (rw (banner) (rw (n, b) refl))

  absent_at :
      (name k : Bytes) (m : Map Bytes BanRecord)
      → has name m ≡ false
      → same name k ≡ true
      → lookup k m ≡ none
  absent_at name k m h e = lookup_absent k m (ap (λ n. has n m) (sym ((same_iff name k).0 e)) ∙ h)

  dropped :
      (now : ℤ) (name : Bytes) (br : BanRecord) (m : Map Bytes BanRecord) (k : Bytes)
      → has name m ≡ false
      → ran_out now br ≡ true
      → in_force now (lookup k m) ≡ in_force now (lookup k ((name, br) ∷ m))
  unfolding lookup
  dropped now name br m k h out = elim (Bool-cases (same name k)) [
    | inl e ↦
        let gone : holds now br ≡ false = ground arith in
        rw (absent_at name k m h e) (rw e (rw gone))
    | inr e ↦ rw e
  ]

  kept :
      (now : ℤ) (name : Bytes) (br : BanRecord) (m bans : Map Bytes BanRecord) (k : Bytes)
      → has name m ≡ false
      → ran_out now br ≡ false
      → overlaid (in_force now (lookup k m)) (lookup k (insert name br bans))
        ≡ overlaid (in_force now (lookup k ((name, br) ∷ m))) (lookup k bans)
  unfolding lookup
  kept now name br m bans k h in_time = elim (Bool-cases (same name k)) [
    | inl e ↦
        let here : holds now br ≡ true = ground arith in
        rw (absent_at name k m h e, lookup-insert name k br bans) (rw e (rw here))
    | inr e ↦ rw (lookup-insert name k br bans) (rw e)
  ]

  load_bans-saved_bans :
      (now : ℤ) (m bans : Map Bytes BanRecord) (k : Bytes)
      → Distinct m
      → IsClean m
      → lookup k (load_bans j (saved_bans j now m) bans)
        ≡ overlaid (in_force now (lookup k m)) (lookup k bans)
  unfolding load_bans saved_bans
  load_bans-saved_bans now [] bans k d c = unfold lookup in refl
  load_bans-saved_bans now ((name, br) ∷ m) bans k d c = elim (Bool-cases (ran_out now br)) [
    | inl out ↦
        rw (saved_bans, out)
          (load_bans-saved_bans now m bans k d.1 c.2
            ∙ ap (λ o. overlaid o (lookup k bans)) (dropped now name br m k d.0 out))
    | inr in_time ↦
        rw (saved_bans, in_time)
          (ap (λ b. lookup k (load_bans j (saved_bans j now m) b))
              (load_ban-saved_ban name br bans c.0 c.1)
            ∙ load_bans-saved_bans now m (insert name br bans) k d.1 c.2
            ∙ kept now name br m bans k d.0 in_time)
  ]

  take_all : (n : ℕ) (xs : List J) → length xs ≤ n → take n xs ≡ xs
  take_all zero [] h = refl
  take_all (suc n) [] h = refl
  take_all zero (x ∷ xs) h = absurd (omega arith)
  take_all (suc n) (x ∷ xs) h = ap (◌∷◌ x) (take_all n xs (omega (arith, h)))

  banlist :
      (now : ℤ) (ch : Channel)
      → lookup (codes "banlist") (saved_fields j now ch)
        ≡ some (j.json_array (saved_bans j now ch.bans))
  unfolding lookup eq_bytes
  banlist now ch = refl

  -- If the channel's bans have one entry for each name, the names are in lower case, neither they
  -- nor the banners hold a zero byte, and at most 300 of the bans are in force, then for every
  -- name the channel that the saved one is loaded into has the ban that was in force when it was
  -- saved, or else what it had itself.
  pub load_channel-save_channel_bans :
      (now later : ℤ) (ch ch0 : Channel) (k : Bytes)
      → Distinct ch.bans
      → IsClean ch.bans
      → length (saved_bans j now ch.bans) ≤ max_loaded_bans
      → lookup k (load_channel j later (save_channel j now ch) ch0).bans
        ≡ overlaid (in_force now (lookup k ch.bans)) (lookup k ch0.bans)
  unfolding load_channel save_channel elements_at
  load_channel-save_channel_bans now later ch ch0 k d c few =
      let fields = saved_fields j now ch in
      let nodes = saved_bans j now ch.bans in
      let at : j.json_object_get (codes "banlist") (j.json_object fields)
          ≡ some (j.json_array nodes) =
        laws.get-object (codes "banlist") fields (saved_fields-Distinct j laws now ch)
        ∙ banlist now ch in
      let list : elements_at j (codes "banlist") (j.json_object fields) ≡ nodes =
        ap (λ o. given [] (o >>= λ value. j.json_elements value)) at
        ∙ ap (given []) (laws.elements-array nodes) in
      ap (λ ns. lookup k (load_bans j (take max_loaded_bans ns) ch0.bans)) list
      ∙ ap (λ ns. lookup k (load_bans j ns ch0.bans)) (take_all max_loaded_bans nodes few)
      ∙ load_bans-saved_bans now ch.bans ch0.bans k d c
