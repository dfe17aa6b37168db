-- ===== src/Tests/Saved.antt =====
-- Saving and loading of src/channel.cpp, over JSON values.
use fserv.Prelude.{◌≡◌, refl, [], ◌∷◌, arith}
use fserv.Prelude.Bytes.{codes, eq_bytes, c_str, lowered, to_lower}
use fserv.Prelude.Int.{pos}
use fserv.Prelude.Maps.{bytes_eq, lookup, has}
use fserv.Channel.{Channel, ct_public, new_channel}
use fserv.Channel.Bans.{in_force}
use fserv.Tests.Json.{json, json-IsJansson}
use fserv.Channel.Saved.{load_channel, save_channel, saved_bans}
use fserv.Channel.Saved.Restored.{IsRestored, load_channel-save_channel}
use fserv.Channel.Saved.Banned.{overlaid, load_channel-save_channel_bans}

abbrev club : Channel
club = record (new_channel (codes "Club") ct_public) {
  title = codes "The club";
  bans =
      (codes "eve", record { banner = codes "Op"; time = pos 10; timeout = pos 50 })
      ∷ (codes "mal", record { banner = codes "Op"; time = pos 11; timeout = pos 0 })
      ∷ [];
}

load_channel-save_channel_example :
    IsRestored club
      (load_channel json (pos 70) (save_channel json (pos 60) club) (new_channel [] ct_public))
load_channel-save_channel_example =
    load_channel-save_channel json json-IsJansson (pos 60) club (pos 70) (new_channel [] ct_public)

load_channel-save_channel_bans_example :
    lookup
      (codes "mal")
      (load_channel json (pos 70) (save_channel json (pos 60) club) (new_channel [] ct_public)).bans
    ≡ overlaid
        (in_force (pos 60) (lookup (codes "mal") club.bans))
        (lookup (codes "mal") (new_channel [] ct_public).bans)
unfolding has eq_bytes lowered to_lower c_str saved_bans
load_channel-save_channel_bans_example =
    load_channel-save_channel_bans json json-IsJansson (pos 60) (pos 70) club
      (new_channel [] ct_public) (codes "mal") (refl, (refl, tt)) (refl, refl, (refl, refl, tt))
      (ground arith)
