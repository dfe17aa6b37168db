-- ===== src/Channel/Saved/Restored.antt =====
-- What a channel that was saved and loaded again has kept.
use fserv.Prelude.{◌≡◌, refl, ap, ◌∙◌, some, ◌>>=◌}
use fserv.Prelude.Bytes.{Bytes, codes, eq_bytes, c_str}
use fserv.Prelude.Int.{ℤ}
use fserv.Prelude.Maps.{bytes_eq, lookup, has, Distinct}
use fserv.Channel.{
  Channel, ChannelType, ChannelMessageMode, ct_public, ct_private, ct_pubprivate, cmm_chat_only,
  cmm_ads_only, cmm_both,
}
use fserv.Json.{Jansson, given, text, string_at}
use fserv.Json.Laws.{IsJansson, string_at-object, integer_at-object}
use fserv.Channel.Saved.{
  mode_to_string, string_to_mode, type_to_string, string_to_type, saved_fields, save_channel,
  load_channel,
}

-- The channel's own texts and numbers, up to the first zero byte of a text.
pub record IsRestored (ch ch' : Channel) : Type 0 where
  pub description_is : ch'.description ≡ c_str ch.description
  pub owner_is : ch'.owner ≡ c_str ch.owner
  pub title_is : ch'.title ≡ c_str ch.title
  pub top_is : ch'.top_users ≡ ch.top_users
  pub mode_is : ch'.chat_mode ≡ ch.chat_mode
  pub type_is : ch'.type ≡ ch.type

mode_round : (m : ChannelMessageMode) → string_to_mode (c_str (mode_to_string m)) ≡ m
unfolding string_to_mode mode_to_string c_str eq_bytes
mode_round cmm_both = refl
mode_round cmm_ads_only = refl
mode_round cmm_chat_only = refl

type_round : (t : ChannelType) → string_to_type (c_str (type_to_string t)) ≡ t
unfolding string_to_type type_to_string c_str eq_bytes
type_round ct_public = refl
type_round ct_private = refl
type_round ct_pubprivate = refl

module _ {J : Type 0} (j : Jansson J) (laws : IsJansson j) (now : ℤ) (ch : Channel) where
  pub saved_fields-Distinct : Distinct (saved_fields j now ch)
  unfolding has eq_bytes
  saved_fields-Distinct =
      (refl, (refl, (refl, (refl, (refl, (refl, (refl, (refl, (refl, (refl, tt))))))))))

  pub saved_string :
      (key s : Bytes)
      → lookup key (saved_fields j now ch) ≡ some (text j s)
      → string_at j key (save_channel j now ch) ≡ some (c_str s)
  unfolding save_channel
  saved_string key s = string_at-object j laws (saved_fields j now ch) key s saved_fields-Distinct

  -- Whatever channel the saved one is loaded into, it then has the saved channel's description,
  -- owner and title, each up to its first zero byte, its record of users, its mode and its type.
  pub load_channel-save_channel :
      (later : ℤ) (ch0 : Channel) → IsRestored ch (load_channel j later (save_channel j now ch) ch0)
  unfolding load_channel save_channel lookup eq_bytes
  load_channel-save_channel later ch0 = record {
    description_is = ap (given _) (saved_string (codes "description") ch.description refl);
    owner_is = ap (given _) (saved_string (codes "owner") ch.owner refl);
    title_is = ap (given _) (saved_string (codes "title") ch.title refl);
    top_is = ap (given _) (
        integer_at-object j laws (saved_fields j now ch) (codes "top") ch.top_users
          saved_fields-Distinct refl);
    mode_is =
        ap (λ o. given ch0.chat_mode (o >>= λ s. some (string_to_mode s)))
          (saved_string (codes "mode") (mode_to_string ch.chat_mode) refl)
        ∙ mode_round ch.chat_mode;
    type_is =
        ap (λ o. given ch0.type (o >>= λ s. some (string_to_type s)))
          (saved_string (codes "type") (type_to_string ch.type) refl)
        ∙ type_round ch.type;
  }
